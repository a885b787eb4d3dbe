-- ===== src/Framework.antt =====
-- The questions of ui/src/components/deploy/FrameworkWizard.tsx about a framework that was found in a
-- repository, and the steps through them. Of a question, its texts are left out. The recipe comes from
-- the server: `pending` counts the presses of Next that wait for it.
pub mod Steps
mod Tests
use mozza.Prelude.{
  ℕ, zero, suc, ◌+◌, ◌-◌, Bool, true, false, not, ◌&&◌, ◌||◌, Option, none, some, List, [], ◌∷◌,
  String, template, decimal, join, length, get_elem?, any, ltb, ◌==◌, nat_eq, string_eq,
  if◌then◌else◌,
}
use mozza.Interview.Combo.{or_else}

-- What was found in the repository. A detail is whether it was found.
pub record DetectResult : Type 0 where
  pub framework : String
  pub port : ℕ
  pub dockerfile : String
  pub has_postgres : Bool
  pub has_celery : Bool
  pub has_sqlalchemy : Bool
  pub has_sidekiq : Bool

-- A choice among values, or a switch.
pub data QuestionType : Type 0 where
  select : List String → QuestionType
  switch : QuestionType

pub record FrameworkQuestion : Type 0 where
  pub id : String
  pub type : QuestionType
  pub default_value : String

abbrev database_question : List String → String → FrameworkQuestion
database_question values d = record { id = "database"; type = select values; default_value = d }

abbrev toggle_question : String → String → FrameworkQuestion
toggle_question name d = record { id = name; type = switch; default_value = d }

abbrev yes_if : Bool → String
yes_if b = if b then "yes" else "no"

pub questions_for : DetectResult → List FrameworkQuestion
questions_for d =
    if d.framework == "nextjs"
    then database_question ("none" ∷ "postgres" ∷ "mysql" ∷ "mongodb" ∷ []) "none"
      ∷ toggle_question "cache" "no"
      ∷ []
    else if d.framework == "django"
    then database_question ("postgres" ∷ "mysql" ∷ []) "postgres"
      ∷ toggle_question "worker" (yes_if d.has_celery)
      ∷ toggle_question "cache" (yes_if d.has_celery)
      ∷ []
    else if d.framework == "flask" || d.framework == "fastapi"
    then database_question ("none" ∷ "postgres" ∷ "mysql" ∷ "mongodb" ∷ [])
        (if d.has_sqlalchemy then "postgres" else "none")
      ∷ toggle_question "cache" "no"
      ∷ []
    else if d.framework == "rails"
    then database_question ("postgres" ∷ "mysql" ∷ []) "postgres"
      ∷ toggle_question "worker" (yes_if d.has_sidekiq)
      ∷ toggle_question "cache" (yes_if d.has_sidekiq)
      ∷ []
    else if d.framework == "laravel"
    then database_question ("postgres" ∷ "mysql" ∷ []) "mysql"
      ∷ toggle_question "octane" "no"
      ∷ toggle_question "cache" "no"
      ∷ []
    else if d.framework == "go"
    then record {
      id = "static_binary";
      type = select ("static" ∷ "cgo" ∷ []);
      default_value = "static";
    }
      ∷ database_question ("none" ∷ "postgres" ∷ "mysql" ∷ []) "none"
      ∷ toggle_question "cache" "no"
      ∷ []
    else database_question ("none" ∷ "postgres" ∷ "mysql" ∷ "mongodb" ∷ []) "none"
      ∷ toggle_question "cache" "no"
      ∷ []

-- The answers by the names of the questions, "" where there is none.
abbrev pub Answers : Type 0
Answers = String → String

abbrev pub answered : String → String → Answers → Answers
answered q v a = λ id. if id == q then v else a id

abbrev pub defaults_from : List FrameworkQuestion → Answers → Answers
defaults_from [] a = a
defaults_from (q ∷ qs) a = defaults_from qs (answered q.id q.default_value a)

pub record Framework : Type 0 where
  pub current_step : ℕ
  pub answers : Answers
  pub recipe : String
  pub dockerfile : String
  pub generating : Bool
  pub pending : ℕ
  pub completed : Option (String × String)
  pub left : Bool

abbrev pub first_framework : List FrameworkQuestion → Framework
first_framework qs = record {
  current_step = 0;
  answers = defaults_from qs (λ id. "");
  recipe = "";
  dockerfile = "";
  generating = false;
  pending = 0;
  completed = none;
  left = false;
}

pub record Generated : Type 0 where
  pub recipe : String
  pub dockerfile : String

-- The recipe without the server.
pub basic_recipe : DetectResult → String → Generated
basic_recipe d app_name = record {
  recipe = join "\n" (
      template ("App: " ∷ app_name ∷ [])
      ∷ ""
      ∷ template ("# " ∷ d.framework ∷ [])
      ∷ ""
      ∷ "App:"
      ∷ template ("  from image " ∷ app_name ∷ ":latest" ∷ [])
      ∷ template ("  open to the public on port " ∷ decimal d.port ∷ [])
      ∷ "  health check /health"
      ∷ "  run 1 copy"
      ∷ []);
  dockerfile = or_else d.dockerfile "# Dockerfile not generated";
}

-- An answer of the server, or none where the call fails.
abbrev pub generated_or : DetectResult → String → Option Generated → Generated
generated_or d app_name none = basic_recipe d app_name
generated_or d app_name (some g) = g

module _ (d : DetectResult) (app_name : String) where
  abbrev pub question_count : ℕ
  question_count = length (questions_for d)

  abbrev pub is_preview_step : Framework → Bool
  is_preview_step w = w.current_step == question_count

  -- `handleNext` up to its `await`.
  pub press_next : Framework → Framework
  press_next w =
      if suc w.current_step == question_count
      then record w { generating = true; pending = suc w.pending }
      else if is_preview_step w
      then record w { completed = some (app_name, w.recipe) }
      else record w { current_step = suc w.current_step }

  -- The rest of `generatePreview` and of `handleNext`, when the server has answered.
  pub generation_done : Option Generated → Framework → Framework
  unfolding basic_recipe
  generation_done answer w =
      let g = generated_or d app_name answer in
      if w.pending == 0 then w else record w {
        recipe = g.recipe;
        dockerfile = g.dockerfile;
        generating = false;
        pending = w.pending - 1;
        current_step = suc w.current_step;
      }

  pub press_back : Framework → Framework
  press_back w =
      if w.current_step == 0
      then record w { left = true }
      else record w { current_step = w.current_step - 1 }

  -- `opt.value` of an option, and "yes" or "no" of a switch.
  abbrev offers : FrameworkQuestion → String → Bool
  offers q v = elim q.type [
    | select values ↦ any (λ o. o == v) values
    | switch ↦ v == "yes" || v == "no"
  ]

  pub answer : String → Framework → Framework
  answer v w = elim (get_elem? (questions_for d) w.current_step) [
    | none ↦ w
    | some q ↦ if offers q v then record w { answers = answered q.id v w.answers } else w
  ]

  -- What happens: the user's actions, and the answers of the server.
  pub data WizardEvent : Type 0 where
    next back : WizardEvent
    choose save : String → WizardEvent
    arrived : Option Generated → WizardEvent

  pub handle_event : WizardEvent → Framework → Framework
  unfolding press_next generation_done press_back answer
  handle_event next w =
      if is_preview_step w && (w.generating || w.recipe == "") then w else press_next w
  handle_event back w = press_back w
  handle_event (choose v) w = answer v w
  handle_event (save r) w =
      if is_preview_step w && not w.generating then record w { recipe = r } else w
  handle_event (arrived g) w = generation_done g w

  abbrev pub handle_events : List WizardEvent → Framework → Framework
  handle_events [] w = w
  handle_events (e ∷ es) w = handle_events es (handle_event e w)
