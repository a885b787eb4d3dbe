-- ===== src/Order/Slices/Tests.antt =====
-- A few edits of an order, and the theorems about edits at them.
use mozza.Prelude.{
  ◌≡◌, refl, true, none, List, [], ◌∷◌, arith, map, trim, hyphenate, lower, contains,
}
use mozza.Interview.{
  ServiceInterviewState, WizardState, kitchen, alias, medium, create_default_service_state,
}
use mozza.Order.Slices.{
  Action, add, need, remove, replicas, pos, perform_all, new_service, display_name,
}
use mozza.Order.Slices.Valid.{IsValid, perform_all-IsValid}
use mozza.Order.Slices.Needs.{NeedsExist}
use mozza.Order.Slices.Dependencies.{perform_all-NeedsExist}

-- The wizard's state when it opens.
abbrev opened : WizardState
opened = record {
  services = create_default_service_state ∷ [];
  active_service_index = 0;
  current_step = 1;
  target = kitchen;
  cluster_id = "";
  fast_lane = true;
  selected_combo = none;
  source = alias;
  selected_template_id = none;
  selected_alias_id = none;
  resource_size = medium;
}

abbrev edits : List Action
edits =
    add "Web Shop" "nginx:1.27"
    ∷ add "db" "postgres:16"
    ∷ need 2 1
    ∷ replicas (pos 500)
    ∷ remove 1
    ∷ []

names : map display_name (perform_all edits opened).services ≡ "" ∷ "db" ∷ []
unfolding perform_all new_service trim hyphenate lower contains
names = refl

perform_all-IsValid_example : IsValid (perform_all edits opened)
perform_all-IsValid_example = perform_all-IsValid edits opened (omega arith)

perform_all-NeedsExist_example : NeedsExist (perform_all edits opened)
perform_all-NeedsExist_example = perform_all-NeedsExist edits opened (tt, tt)

abbrev imaged : ServiceInterviewState
imaged = record create_default_service_state { service_name = "web"; alias_image = "nginx" }

abbrev behind : WizardState
behind = record opened { services = create_default_service_state ∷ imaged ∷ [] }
