-- ===== src/Marketplace/Asked.antt =====
-- ui/src/components/marketplace/RecipeCatalog.tsx: what is asked of the server.
use mozza.Prelude.{
  ◌≡◌, refl, Bool, true, false, not, ◌&&◌, ◌||◌, Option, none, some, List, [], ◌∷◌, ◌++◌, String,
  arith, string_eq, ◌==◌, eq_refl, Bool-cases, Option-cases, inl, inr, if◌then◌else◌,
}
use mozza.Recipe.{given}
use mozza.Marketplace.{
  Catalog, Params, params_of, first_catalog, fetch_recipes, set_filters, handle_search_change,
  timer_fires, retry, clear_catalog, recipes_listed, no_recipes, CatalogEvent, press_retry,
  press_clear, fire, search, pick, answer, failure, catalog_event, catalog_events, params_at,
  without_params, on_recipes, no_templates,
}

abbrev pub last : List Params → Option Params
last [] = none
last (p ∷ []) = some p
last (p ∷ q ∷ ps) = last (q ∷ ps)

last-snoc : (ps : List Params) (p : Params) → last (ps ++ p ∷ []) ≡ some p
last-snoc [] p = refl
last-snoc (q ∷ []) p = refl
last-snoc (q ∷ r ∷ ps) p = last-snoc (r ∷ ps) p

-- The last request is for the category and the text that are chosen.
abbrev pub IsCurrent : Catalog → Type 0
IsCurrent c = last c.asked ≡ some (params_of c.active_category c.debounced_query)

set_filters-IsCurrent :
    (category query : String) (c : Catalog) → IsCurrent c → IsCurrent (set_filters category query c)
unfolding set_filters fetch_recipes
set_filters-IsCurrent category query c h =
    elim (Bool-cases (c.active_category == category && c.debounced_query == query)) [
      | inl y ↦ rw y h
      | inr n ↦ rw n (last-snoc c.asked (params_of category query))
    ]

timer_fires-IsCurrent : (c : Catalog) → IsCurrent c → IsCurrent (timer_fires c)
unfolding timer_fires
timer_fires-IsCurrent c h = elim (Option-cases c.debounce) [
  | inl e ↦ rw e h
  | inr (v, e) ↦ rw e (set_filters-IsCurrent c.active_category v (record c { debounce = none }) h)
]

if-IsCurrent :
    (b : Bool) (c d : Catalog) → IsCurrent c → IsCurrent d → IsCurrent (if b then d else c)
if-IsCurrent false c d h k = h
if-IsCurrent true c d h k = k

on_recipes-IsCurrent :
    (o : Option Params) (f : Catalog → Catalog) (c : Catalog)
    → IsCurrent c
    → IsCurrent (f c)
    → IsCurrent (on_recipes o f c)
on_recipes-IsCurrent none f c h k = h
on_recipes-IsCurrent (some p) f c h k = k

event-IsCurrent : (e : CatalogEvent) (c : Catalog) → IsCurrent c → IsCurrent (catalog_event e c)
unfolding catalog_event retry clear_catalog handle_search_change recipes_listed no_recipes
event-IsCurrent press_retry c h =
    if-IsCurrent (not c.loading && given c.error) c (retry c) h
      (set_filters-IsCurrent c.active_category c.debounced_query (record c { error = "" }) h)
event-IsCurrent press_clear c h =
    if-IsCurrent
      (not c.loading
        && not (given c.error)
        && no_templates c.templates
        && (not (c.active_category == "All") || given c.debounced_query))
      c (clear_catalog c) h (set_filters-IsCurrent "All" "" (record c { search_query = "" }) h)
event-IsCurrent fire c h = timer_fires-IsCurrent c h
event-IsCurrent (search value) c h = h
event-IsCurrent (pick category) c h = set_filters-IsCurrent category c.debounced_query c h
event-IsCurrent (answer n ts) c h =
    on_recipes-IsCurrent (params_at n c.awaited) (recipes_listed ts)
      (record c { awaited = without_params n c.awaited }) h h
event-IsCurrent (failure n message) c h =
    on_recipes-IsCurrent (params_at n c.awaited) (no_recipes message)
      (record c { awaited = without_params n c.awaited }) h h

events-IsCurrent :
    (es : List CatalogEvent) (c : Catalog) → IsCurrent c → IsCurrent (catalog_events es c)
events-IsCurrent [] c h = h
events-IsCurrent (e ∷ es) c h = events-IsCurrent es (catalog_event e c) (event-IsCurrent e c h)

-- Whatever the user does and the server answers, the last request is for the chosen category and for the
-- text that the search settled on.
pub catalog_events-IsCurrent :
    (es : List CatalogEvent)
    → let c = catalog_events es first_catalog in
      last c.asked ≡ some (params_of c.active_category c.debounced_query)
unfolding first_catalog
catalog_events-IsCurrent es = events-IsCurrent es first_catalog refl

-- Texts that are typed one after the other, and then the timer.
abbrev pub typed_until : List String → String → List CatalogEvent
typed_until [] value = search value ∷ fire ∷ []
typed_until (v ∷ vs) value = search v ∷ typed_until vs value

-- While the user types, nothing is asked; once the timer fires, one request is made for the last text,
-- unless that is the text that was searched for before.
pub asked-typed_until :
    (vs : List String) (value : String) (c : Catalog)
    → (catalog_events (typed_until vs value) c).asked ≡ (
        if c.debounced_query == value
        then c.asked
        else c.asked ++ params_of c.active_category value ∷ [])
unfolding catalog_event handle_search_change timer_fires set_filters fetch_recipes
asked-typed_until [] value c = ground (arith, eq_refl c.active_category)
asked-typed_until (v ∷ vs) value c = asked-typed_until vs value (handle_search_change v c)
