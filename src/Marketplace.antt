-- ===== src/Marketplace.antt =====
-- ui/src/components/marketplace/RecipeCatalog.tsx: the recipes of the marketplace, by category and search.
pub mod Asked
pub mod Retried
mod Tests
use mozza.Prelude.{
  ℕ, zero, suc, Bool, true, false, not, ◌&&◌, ◌||◌, Option, none, some, List, [], ◌∷◌, ◌++◌, String,
  filter, length, ltb, ◌==◌, string_eq, if◌then◌else◌, includes,
}
use mozza.Recipe.{given}

-- A recipe of the marketplace, as far as the catalog reads it.
pub record Listed : Type 0 where
  pub id : String
  pub name : String
  pub category : String

abbrev featured_ids : List String
featured_ids = "wordpress" ∷ "grafana-stack" ∷ "ghost" ∷ "redis" ∷ "gitea" ∷ []

-- What a request asks for; "" where no text is searched for.
pub record Params : Type 0 where
  pub category : Option String
  pub query : Option String

-- The state; the value that the timer of the search holds, while it runs; the requests made so far, the last
-- one last, and those whose answers are awaited.
pub record Catalog : Type 0 where
  pub templates : List Listed
  pub loading : Bool
  pub error : String
  pub active_category : String
  pub search_query : String
  pub debounced_query : String
  pub debounce : Option String
  pub asked : List Params
  pub awaited : List Params

abbrev pub params_of : String → String → Params
params_of category query = record {
  category = if category == "All" then none else some category;
  query = if given query then some query else none;
}

-- The effect that fetches the recipes, up to its request
pub fetch_recipes : Catalog → Catalog
fetch_recipes c = record c {
  loading = true;
  error = "";
  asked = c.asked ++ params_of c.active_category c.debounced_query ∷ [];
  awaited = c.awaited ++ params_of c.active_category c.debounced_query ∷ [];
}

pub first_catalog : Catalog
unfolding fetch_recipes
first_catalog = fetch_recipes (record {
  templates = [];
  loading = true;
  error = "";
  active_category = "All";
  search_query = "";
  debounced_query = "";
  debounce = none;
  asked = [];
  awaited = [];
})

-- The setters of what the effect depends on: it runs again where one of the two has changed.
pub set_filters : String → String → Catalog → Catalog
unfolding fetch_recipes
set_filters category query c =
    if c.active_category == category && c.debounced_query == query
    then c
    else fetch_recipes (record c { active_category = category; debounced_query = query })

pub handle_search_change : String → Catalog → Catalog
handle_search_change value c = record c { search_query = value; debounce = some value }

-- The timer of the search, after 300 ms
pub timer_fires : Catalog → Catalog
unfolding set_filters
timer_fires c = elim c.debounce [
  | none ↦ c
  | some value ↦ set_filters c.active_category value (record c { debounce = none })
]

-- `Retry`
pub retry : Catalog → Catalog
unfolding set_filters
retry c = set_filters c.active_category c.debounced_query (record c { error = "" })

-- `Clear filters`
pub clear_catalog : Catalog → Catalog
unfolding set_filters
clear_catalog c = set_filters "All" "" (record c { search_query = "" })

pub recipes_listed : List Listed → Catalog → Catalog
recipes_listed ts c = record c { templates = ts; loading = false }

pub no_recipes : String → Catalog → Catalog
no_recipes message c = record c { error = message; loading = false }

abbrev pub is_featured : Listed → Bool
is_featured t = includes featured_ids t.id

abbrev pub featured : Catalog → List Listed
featured c = filter is_featured c.templates

abbrev pub rest : Catalog → List Listed
rest c = filter (λ t. not (is_featured t)) c.templates

abbrev pub show_featured : Catalog → Bool
show_featured c =
    c.active_category == "All" && not (given c.debounced_query) && ltb 0 (length (featured c))

-- The two lists that the page shows, once it has an answer: the featured recipes, and the others.
abbrev pub shown_lists : Catalog → List Listed × List Listed
shown_lists c = if show_featured c then (featured c, rest c) else ([], c.templates)

-- The actions of the user, the first two of them shown only after an error and on an empty list; the timer;
-- and the answers, to any of the requests that are awaited.
pub data CatalogEvent : Type 0 where
  press_retry press_clear fire : CatalogEvent
  search pick : String → CatalogEvent
  answer : ℕ → List Listed → CatalogEvent
  failure : ℕ → String → CatalogEvent

abbrev pub params_at : ℕ → List Params → Option Params
params_at n [] = none
params_at zero (p ∷ ps) = some p
params_at (suc n) (p ∷ ps) = params_at n ps

abbrev pub without_params : ℕ → List Params → List Params
without_params n [] = []
without_params zero (p ∷ ps) = ps
without_params (suc n) (p ∷ ps) = p ∷ without_params n ps

abbrev pub on_recipes : Option Params → (Catalog → Catalog) → Catalog → Catalog
on_recipes none f c = c
on_recipes (some p) f c = f c

abbrev pub no_templates : List Listed → Bool
no_templates [] = true
no_templates (t ∷ ts) = false

pub catalog_event : CatalogEvent → Catalog → Catalog
unfolding retry clear_catalog timer_fires set_filters handle_search_change recipes_listed no_recipes
catalog_event press_retry c = if not c.loading && given c.error then retry c else c
catalog_event press_clear c =
    if not c.loading
      && not (given c.error)
      && no_templates c.templates
      && (not (c.active_category == "All") || given c.debounced_query)
    then clear_catalog c
    else c
catalog_event fire c = timer_fires c
catalog_event (search value) c = handle_search_change value c
catalog_event (pick category) c = set_filters category c.debounced_query c
catalog_event (answer n ts) c =
    on_recipes (params_at n c.awaited) (recipes_listed ts)
      (record c { awaited = without_params n c.awaited })
catalog_event (failure n message) c =
    on_recipes (params_at n c.awaited) (no_recipes message)
      (record c { awaited = without_params n c.awaited })

abbrev pub catalog_events : List CatalogEvent → Catalog → Catalog
catalog_events [] c = c
catalog_events (e ∷ es) c = catalog_events es (catalog_event e c)
