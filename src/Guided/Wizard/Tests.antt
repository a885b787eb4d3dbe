-- ===== src/Guided/Wizard/Tests.antt =====
-- Users of the guided wizard of GuidedWizard.tsx, and the theorems about it at them.
use mozza.Prelude.{
  ◌++◌, ℕ, ◌≡◌, refl, ◌⊎◌, inl, inr, Bool, true, false, Option, none, some, List, [], ◌∷◌, String,
  any, arith,
}
use mozza.Guided.{
  toggle_needs_db, DeployType, webapp, worker, GuidedService, set_image, toggle_needs_db,
  make_default_service, on_schedule, add_db, add_cache, remove_scheduled, remove_db, remove_cache,
  has_db, has_cache, pick_extra_db,
}
use mozza.Guided.Source.{generate_recipe_source}
use mozza.Guided.Wizard.{
  handle_back, in_review, reviewed, has_text, details_valid, handle_next, handle_type_select,
  is_step_valid, perform, Wizard, initial, Action, name_app, select, detail, extra, next,
  perform_all, total_steps, back,
}
use mozza.Guided.Wizard.Steps.{presses, presses_complete}
use mozza.Guided.Wizard.Shown.{reviewed_lem}
use mozza.Guided.Wizard.Extras.{IsTidy}

abbrev to_extras : List Action
to_extras =
    select webapp
    ∷ name_app "Shop"
    ∷ next
    ∷ detail (set_image "shop:1")
    ∷ next
    ∷ extra add_db
    ∷ extra (pick_extra_db "mysql")
    ∷ extra add_cache
    ∷ []

abbrev shop : GuidedService
shop = record (make_default_service webapp) { image = "shop:1"; needs_cache = true }

abbrev chosen : Wizard
chosen = record initial { deploy_type = some webapp; app_name = "Shop"; services = shop ∷ [] }

valid_shop : details_valid (some webapp) (shop ∷ []) ≡ true
unfolding has_text mozza.Prelude.trim
valid_shop = refl

presses_complete_example :
    (perform_all (presses (total_steps chosen)) chosen).completed
    ≡ some ("Shop", generate_recipe_source "Shop" (shop ∷ []))
presses_complete_example = presses_complete chosen refl refl valid_shop

IsTidy-initial : IsTidy initial
IsTidy-initial = record { plain = refl; kinds = inr refl }

at_extras :
    ((perform_all to_extras initial).step ≡ 3)
    × ((perform_all to_extras initial).deploy_type ≡ some webapp)
unfolding perform handle_type_select handle_next is_step_valid has_text mozza.Prelude.trim
    mozza.Guided.shows_detail mozza.Guided.change_detail mozza.Guided.change_extras
    mozza.Guided.shows_extra
at_extras = (refl, refl)

abbrev job : GuidedService
job = record (make_default_service worker) {
  name = "worker";
  image = "job:1";
  kind = "scheduled";
  run_mode = on_schedule;
}

abbrev at_job : Wizard
at_job = record initial {
  step = 3;
  deploy_type = some worker;
  app_name = "job";
  services = job ∷ [];
}

abbrev to_review : List Action
to_review = to_extras ++ back ∷ detail toggle_needs_db ∷ next ∷ next ∷ []

in_review-to_review : in_review (perform_all to_review initial) ≡ true
unfolding perform handle_type_select handle_next handle_back is_step_valid has_text
    mozza.Prelude.trim mozza.Guided.shows_detail mozza.Guided.change_detail
    mozza.Guided.change_extras mozza.Guided.shows_extra
in_review-to_review = refl

reviewed_lem_example :
    let w = perform_all to_review initial in
    reviewed w ≡ generate_recipe_source w.app_name w.services
reviewed_lem_example = reviewed_lem to_review refl in_review-to_review
