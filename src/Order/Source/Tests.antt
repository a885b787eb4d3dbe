-- ===== src/Order/Source/Tests.antt =====
-- The theorems about the ordered recipe at concrete orders.
use mozza.Prelude.{◌≡◌, refl, true, none, [], ◌∷◌, All, lower, string_eq, List}
use mozza.Interview.{
  ServiceInterviewState, WizardState, kitchen, alias, medium, create_default_service_state,
  postgres_16,
}
use mozza.Order.Slices.{Action, perform_all, replicas, toggle_visibility, pos}
use mozza.Order.Source.Closed.{needs_of-HasSlice}
use mozza.Order.Source.{reserved, needs_of}
use mozza.Order.Source.Dependencies.{HasSlice}

abbrev app : ServiceInterviewState
app = record create_default_service_state { service_name = "App"; alias_image = "acme/app:1" }

abbrev worker : ServiceInterviewState
worker = record create_default_service_state {
  service_name = "jobs";
  alias_image = "acme/jobs:1";
  needs_services = "App" ∷ [];
  dependencies = postgres_16 true ∷ [];
}

abbrev order : WizardState
order = record {
  services = app ∷ worker ∷ [];
  active_service_index = 0;
  current_step = 2;
  target = kitchen;
  cluster_id = "";
  fast_lane = true;
  selected_combo = none;
  source = alias;
  selected_template_id = none;
  selected_alias_id = none;
  resource_size = medium;
}

App-reserved : reserved "App" ≡ true
unfolding reserved lower
App-reserved = refl

abbrev shop : ServiceInterviewState
shop = record create_default_service_state {
  service_name = "shop";
  alias_image = "nginx";
  needs_services = "ledger" ∷ [];
}

abbrev ledger : ServiceInterviewState
ledger = record create_default_service_state {
  service_name = "ledger";
  alias_image = "acme/ledger";
}

abbrev two : WizardState
two = record order { services = shop ∷ ledger ∷ [] }

abbrev scaled : List Action
scaled = replicas (pos 3) ∷ toggle_visibility 1 ∷ []

needs_of-HasSlice_example :
    All
      (λ s. All (HasSlice "acme" (perform_all scaled two)) (needs_of "acme" s))
      (perform_all scaled two).services
unfolding perform_all reserved lower
needs_of-HasSlice_example =
    needs_of-HasSlice "acme" scaled two ((refl, tt), (tt, tt)) refl (refl, (refl, tt))
