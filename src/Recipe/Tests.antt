-- ===== src/Recipe/Tests.antt =====
-- A recipe in full, and the theorems about recipes at concrete orders.
use mozza.Prelude.{◌≡◌, refl, true, none, List, [], ◌∷◌, All, join, template, decimal, trim_end}
use mozza.Interview.{
  ServiceInterviewState, WizardState, kitchen, alias, medium, create_default_service_state,
  postgres_16,
}
use mozza.Recipe.{get_dependency_names, recipe_lines, generate_order_recipe}
use mozza.Recipe.Needs.{HasSlice}
use mozza.Recipe.Closed.{recipe_lines-HasSlice}

abbrev shop : ServiceInterviewState
shop = record create_default_service_state {
  alias_name = "shop";
  alias_image = "ghcr.io/acme/shop:1";
  replicas = 2;
  is_public = true;
  dependencies = postgres_16 true ∷ [];
}

abbrev order_of : List ServiceInterviewState → WizardState
order_of svcs = record {
  services = svcs;
  active_service_index = 0;
  current_step = 1;
  target = kitchen;
  cluster_id = "";
  fast_lane = true;
  selected_combo = none;
  source = alias;
  selected_template_id = none;
  selected_alias_id = none;
  resource_size = medium;
}

recipe_test :
    generate_order_recipe (order_of (shop ∷ []))
    ≡ "App: shop\n\nImages:\n  shop: ghcr.io/acme/shop:1\n\nshop:\n  from image shop\n  run 2 copies\n  open to the public on port 8080\n  needs shop-db\n  health check /health\n  limit cpu to 500m\n  limit memory to 256Mi\n\nshop-db:\n  postgres 16, 10Gi"
unfolding generate_order_recipe template decimal join trim_end
recipe_test = refl

recipe_lines-HasSlice_example :
    All
      (λ s. All (HasSlice (recipe_lines (order_of (shop ∷ [])))) (get_dependency_names s))
      (shop ∷ [])
recipe_lines-HasSlice_example = recipe_lines-HasSlice "shop" (order_of (shop ∷ [])) (refl, tt)

abbrev blog : ServiceInterviewState
blog = record shop { alias_name = "blog" }
