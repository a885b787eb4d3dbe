-- ===== src/Marketplace/Tests.antt =====
-- Examples of the catalog of ui/src/components/marketplace/RecipeCatalog.tsx.
use mozza.Prelude.{
  ◌≡◌, refl, false, none, some, List, [], ◌∷◌, ◌++◌, string_eq, ◌==◌, if◌then◌else◌,
}
use mozza.Marketplace.{
  Catalog, Listed, params_of, first_catalog, CatalogEvent, press_retry, press_clear, fire, search,
  pick, answer, catalog_event, catalog_events, shown_lists, fetch_recipes, set_filters,
  handle_search_change, timer_fires, clear_catalog, recipes_listed,
}
use mozza.Marketplace.Asked.{last, catalog_events-IsCurrent, typed_until, asked-typed_until}
use mozza.Marketplace.Retried.{catalog_event-press_retry}

abbrev redis : Listed
redis = record { id = "redis"; name = "Redis"; category = "Databases" }

abbrev ghostly : Listed
ghostly = record { id = "ghostly"; name = "Ghostly"; category = "CMS" }

-- The answer for all categories arrives after that for one.
abbrev late_answer : List CatalogEvent
late_answer = pick "CMS" ∷ answer 1 (ghostly ∷ []) ∷ answer 0 (redis ∷ []) ∷ []

late_answer_shown :
    ((catalog_events late_answer first_catalog).active_category ≡ "CMS")
    × ((catalog_events late_answer first_catalog).templates ≡ redis ∷ [])
unfolding first_catalog catalog_event fetch_recipes set_filters recipes_listed
late_answer_shown = (refl, refl)

-- The filters are cleared while the timer of the search runs.
abbrev cleared : List CatalogEvent
cleared = pick "CMS" ∷ answer 0 [] ∷ answer 0 [] ∷ search "blog" ∷ press_clear ∷ fire ∷ []

cleared_search_runs :
    ((catalog_events cleared first_catalog).search_query ≡ "")
    × ((catalog_events cleared first_catalog).debounced_query ≡ "blog")
unfolding first_catalog catalog_event fetch_recipes set_filters recipes_listed handle_search_change
    clear_catalog timer_fires
cleared_search_runs = (refl, refl)

featured_first :
    shown_lists (catalog_events (answer 0 (ghostly ∷ redis ∷ []) ∷ []) first_catalog)
    ≡ (redis ∷ [], ghostly ∷ [])
unfolding first_catalog catalog_event fetch_recipes recipes_listed
featured_first = refl

catalog_events-IsCurrent_example :
    last (catalog_events cleared first_catalog).asked
    ≡ some (
        params_of
          (catalog_events cleared first_catalog).active_category
          (catalog_events cleared first_catalog).debounced_query)
catalog_events-IsCurrent_example = catalog_events-IsCurrent cleared

asked-typed_until_example :
    (catalog_events (typed_until ("b" ∷ "bl" ∷ []) "blog") first_catalog).asked ≡ (
      if first_catalog.debounced_query == "blog"
      then first_catalog.asked
      else first_catalog.asked ++ params_of first_catalog.active_category "blog" ∷ [])
asked-typed_until_example = asked-typed_until ("b" ∷ "bl" ∷ []) "blog" first_catalog

abbrev failed_catalog : Catalog
failed_catalog = record {
  templates = [];
  loading = false;
  error = "Failed to load recipes";
  active_category = "All";
  search_query = "";
  debounced_query = "";
  debounce = none;
  asked = params_of "All" "" ∷ [];
  awaited = [];
}

catalog_event-press_retry_example :
    catalog_event press_retry failed_catalog ≡ record failed_catalog { error = "" }
catalog_event-press_retry_example = catalog_event-press_retry failed_catalog refl refl
