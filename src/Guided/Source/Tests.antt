-- ===== src/Guided/Source/Tests.antt =====
-- A web service with a database and a cache, and the recipe of GuidedWizard.tsx for it.
use mozza.Prelude.{
  ℕ, ◌≡◌, refl, ◌⊎◌, inl, inr, Bool, true, false, Option, none, some, List, [], ◌∷◌, String, any,
  arith,
}
use mozza.Guided.{webapp, GuidedService, make_default_service}
use mozza.Guided.Source.{generate_recipe_source, extras}
use mozza.Guided.Source.Extras.{count, once, requests, count-extras}

abbrev shop : GuidedService
shop = record (make_default_service webapp) {
  name = "shop";
  image = "shop:1";
  needs_db = true;
  db_engine = "mysql";
  needs_cache = true;
}

recipe_of_shop :
    generate_recipe_source "Shop" (shop ∷ shop ∷ [])
    ≡ "App: Shop\n\nShop:\n  from image shop:1\n  open to the public on port 8080\n  needs mysql and cache\n\nShop:\n  from image shop:1\n  open to the public on port 8080\n  needs mysql and cache\n\nMySQL:\n  mysql, 10Gi\n\nCache:\n  redis"
unfolding generate_recipe_source mozza.Prelude.template mozza.Prelude.decimal_int
    mozza.Prelude.decimal mozza.Prelude.join mozza.Prelude.capitalize mozza.Prelude.trim_end
recipe_of_shop = refl

count-extras_example :
    count "mysql" (extras [] (shop ∷ shop ∷ [])) ≡ once (any (requests "mysql") (shop ∷ shop ∷ []))
count-extras_example = count-extras [] (shop ∷ shop ∷ []) "mysql"
