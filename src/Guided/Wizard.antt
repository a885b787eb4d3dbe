-- ===== src/Guided/Wizard.antt =====
-- The steps of `GuidedWizard` in GuidedWizard.tsx, and the editor of its last step. A control does
-- something only while it is shown and enabled.
pub mod Steps
pub mod Shown
pub mod Extras
mod Tests
use mozza.Prelude.{
  ℕ, suc, ◌+◌, ◌-◌, min, max, pos, Bool, true, false, not, ◌&&◌, ◌||◌, Option, none, some, List, [],
  ◌∷◌, String, template, trim, length, all, ltb, ◌==◌, nat_eq, string_eq, if◌then◌else◌,
}
use mozza.Interview.Combo.{or_else}
use mozza.Order.Navigation.{is_set}
use mozza.Recipe.{given}
use mozza.Guided.{
  DeployType, webapp, api, worker, scheduled, database, fullstack, GuidedService, is_offered,
  type_name, make_default_service, Detail, shows_detail, change_detail, Change, change_services,
  Extra, shows_extra, change_extras,
}
use mozza.Guided.Source.{generate_recipe_source}

-- The state of the wizard and of its editor, and what `onComplete` was last called with.
pub record Wizard : Type 0 where
  pub step : ℕ
  pub deploy_type : Option DeployType
  pub app_name : String
  pub services : List GuidedService
  pub recipe_source : String
  pub editing : Bool
  pub edit_value : String
  pub completed : Option (String × String)

abbrev pub initial : Wizard
initial = record {
  step = 1;
  deploy_type = none;
  app_name = "";
  services = [];
  recipe_source = "";
  editing = false;
  edit_value = "";
  completed = none;
}

abbrev pub is_database : Option DeployType → Bool
is_database (some database) = true
is_database _ = false

abbrev pub is_full_stack : Option DeployType → Bool
is_full_stack (some fullstack) = true
is_full_stack _ = false

abbrev pub total_steps : Wizard → ℕ
total_steps w = if is_database w.deploy_type then 3 else 4

abbrev first_services : DeployType → List GuidedService
first_services fullstack =
    record (make_default_service fullstack) {
      name = "frontend";
      kind = "web";
      is_public = true;
      port = pos 3000;
    }
    ∷ record (make_default_service api) { name = "api"; kind = "api"; port = pos 8080 }
    ∷ []
first_services t = record (make_default_service t) { name = type_name t } ∷ []

abbrev first_name : DeployType → String
first_name fullstack = "my-app"
first_name t = template ("my-" ∷ type_name t ∷ [])

pub handle_type_select : DeployType → Wizard → Wizard
unfolding type_name
handle_type_select t w = record w {
  deploy_type = some t;
  services = first_services t;
  app_name = first_name t;
}

pub has_text : String → Bool
has_text image = given (trim image)

-- `undefined !== ""` where there is no service.
abbrev of_first : (GuidedService → Bool) → List GuidedService → Bool
of_first p [] = true
of_first p (s ∷ ss) = p s

abbrev details_valid : Option DeployType → List GuidedService → Bool
details_valid t svcs =
    if is_full_stack t
    then ltb 0 (length svcs) && all (λ s. has_text s.image) svcs
    else if is_database t
    then of_first (λ s. given s.engine) svcs
    else of_first (λ s. has_text s.image) svcs

pub is_step_valid : Wizard → Bool
unfolding has_text
is_step_valid w =
    if w.step == 1
    then is_set w.deploy_type
    else if w.step == 2
    then details_valid w.deploy_type w.services
    else w.step == 3 || w.step == 4

abbrev pub reviewed : Wizard → String
reviewed w = or_else w.recipe_source (generate_recipe_source w.app_name w.services)

abbrev generated : Wizard → Wizard
generated w = record w { recipe_source = generate_recipe_source w.app_name w.services }

-- The editor starts anew when the review is shown.
abbrev open_review : Wizard → Wizard
open_review w = record w { editing = false; edit_value = reviewed w }

abbrev moved_on : Wizard → Wizard
moved_on w = record w { step = min (w.step + 1) (total_steps w) }

unfoldable pub handle_next : Wizard → Wizard
handle_next w =
    if w.step == total_steps w
    then record w { completed = some (w.app_name, reviewed w) }
    else if w.step == total_steps w - 1
    then open_review (moved_on (generated w))
    else moved_on w

unfoldable pub handle_back : Wizard → Wizard
handle_back w = record w { step = max (w.step - 1) 1 }

abbrev pub in_review : Wizard → Bool
in_review w = w.step == total_steps w

abbrev change_first : DeployType → Detail → List GuidedService → List GuidedService
change_first t d [] = []
change_first t d (s ∷ ss) = (if shows_detail t s d then change_detail d s else s) ∷ ss

abbrev changed_detail : Detail → Wizard → Wizard
changed_detail d w = elim w.deploy_type [
  | none ↦ w
  | some t ↦
      if w.step == 2 && not (is_full_stack (some t))
      then record w { services = change_first t d w.services }
      else w
]

abbrev changed_services : Change → Wizard → Wizard
changed_services c w =
    if w.step == 2 && is_full_stack w.deploy_type
    then record w { services = change_services c w.services }
    else w

abbrev changed_extras : Extra → Wizard → Wizard
changed_extras e w = elim w.deploy_type [
  | none ↦ w
  | some t ↦
      if w.step == 3 && not (is_database (some t)) && shows_extra t w.services e
      then record w { services = change_extras e w.services }
      else w
]

-- What the user can do.
pub data Action : Type 0 where
  name_app edit_text : String → Action
  select : DeployType → Action
  detail : Detail → Action
  change : Change → Action
  extra : Extra → Action
  next back edit save cancel : Action

pub perform : Action → Wizard → Wizard
unfolding handle_type_select handle_next handle_back is_step_valid change_detail shows_detail
    change_services shows_extra change_extras
perform (name_app s) w = if w.step == 1 then record w { app_name = s } else w
perform (select t) w = if w.step == 1 && is_offered t then handle_type_select t w else w
perform (detail d) w = changed_detail d w
perform (change c) w = changed_services c w
perform (extra e) w = changed_extras e w
perform next w = if is_step_valid w then handle_next w else w
perform back w = if ltb 1 w.step then handle_back w else w
perform edit w =
    if in_review w && not w.editing then record w { editing = true; edit_value = reviewed w } else w
perform (edit_text s) w = if in_review w && w.editing then record w { edit_value = s } else w
perform save w =
    if in_review w && w.editing
    then record w { recipe_source = w.edit_value; editing = false }
    else w
perform cancel w =
    if in_review w && w.editing then record w { editing = false; edit_value = reviewed w } else w

abbrev pub perform_all : List Action → Wizard → Wizard
perform_all [] w = w
perform_all (a ∷ acts) w = perform_all acts (perform a w)
