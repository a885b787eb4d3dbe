-- ===== src/Framework/Tests.antt =====
-- A Django application, and the theorems about the steps of its wizard.
use mozza.Prelude.{
  ℕ, ◌≡◌, refl, inl, inr, Bool, true, false, Option, none, some, List, [], ◌∷◌, String, map, length,
  get_elem?, arith, suc,
}
use mozza.Framework.{
  DetectResult, questions_for, Framework, first_framework, is_preview_step, WizardEvent, next, back,
  choose, save, arrived, handle_events, Generated, handle_event,
}
use mozza.Framework.Steps.{IsOnStep, handle_events-IsOnStep, waits}

abbrev django : DetectResult
django = record {
  framework = "django";
  port = 8000;
  dockerfile = "";
  has_postgres = true;
  has_celery = true;
  has_sqlalchemy = false;
  has_sidekiq = false;
}

abbrev start : Framework
start = first_framework (questions_for django)

defaults_of_django :
    map start.answers ("database" ∷ "worker" ∷ "cache" ∷ []) ≡ "postgres" ∷ "yes" ∷ "yes" ∷ []
unfolding questions_for
defaults_of_django = refl

abbrev visit : List (WizardEvent django "shop")
visit = next ∷ choose "no" ∷ next ∷ back ∷ next ∷ next ∷ arrived none ∷ next ∷ []

recipe_of_visit :
    (handle_events django "shop" visit start).completed
    ≡ some (
      "shop",
      "App: shop\n\n# django\n\nApp:\n  from image shop:latest\n  open to the public on port 8000\n  health check /health\n  run 1 copy",
    )
unfolding handle_event questions_for mozza.Framework.basic_recipe mozza.Prelude.template
    mozza.Prelude.decimal mozza.Prelude.join
recipe_of_visit = refl

waits-visit : waits django "shop" visit start ≡ true
unfolding handle_event questions_for
waits-visit = refl

IsOnStep-start : IsOnStep django "shop" start
IsOnStep-start = record { within = omega arith; waiting = inl refl }

handle_events-IsOnStep_example : IsOnStep django "shop" (handle_events django "shop" visit start)
handle_events-IsOnStep_example =
    handle_events-IsOnStep django "shop" visit start waits-visit IsOnStep-start

abbrev at_last : Framework
at_last = record start { current_step = 2 }

last_question : suc 2 ≡ length (questions_for django)
unfolding questions_for
last_question = refl
