-- ===== src/Order/Source/Dependencies.antt =====
-- The slices of databases and caches in the recipe of buildRecipeSource (OrderWizard.tsx).
use mozza.Prelude.{
  ◌≡◌, refl, Bool, true, false, ◌||◌, ◌&&◌, Option, none, some, List, [], ◌∷◌, String, arith,
  eq_refl, template, any, includes, includes-append, All, All-append, All-any, ◌==◌, string_eq,
  nat_eq, if◌then◌else◌, length,
}
use mozza.Interview.{WizardState, ServiceInterviewState, DependencyConfig, database, cache}
use mozza.Interview.Combo.{or_else}
use mozza.Order.Source.{
  Shared, enabled_dep, collect_shared, nothing_shared, shared_needs, db_name, db_block, cache_block,
  service_blocks, shared_blocks, source_lines, is_database_only, with_db, with_cache, dep_needs,
}

abbrev is_given : Option DependencyConfig → Bool
is_given none = false
is_given (some d) = true

abbrev needs_db : ServiceInterviewState → Bool
needs_db s = is_given (enabled_dep database s)

abbrev needs_cache : ServiceInterviewState → Bool
needs_cache s = is_given (enabled_dep cache s)

collect_shared-has_db :
    (svcs : List ServiceInterviewState) (sh : Shared)
    → (collect_shared svcs sh).has_db ≡ (sh.has_db || any needs_db svcs)
unfolding collect_shared
collect_shared-has_db [] sh = ground arith
collect_shared-has_db (s ∷ svcs) sh = ground (
  arith,
  collect_shared-has_db svcs
      (with_cache (enabled_dep cache s) (with_db (enabled_dep database s) sh)),
)

collect_shared-has_cache :
    (svcs : List ServiceInterviewState) (sh : Shared)
    → (collect_shared svcs sh).has_cache ≡ (sh.has_cache || any needs_cache svcs)
unfolding collect_shared
collect_shared-has_cache [] sh = ground arith
collect_shared-has_cache (s ∷ svcs) sh = ground (
  arith,
  collect_shared-has_cache svcs
      (with_cache (enabled_dep cache s) (with_db (enabled_dep database s) sh)),
)

-- The recipe has a slice of this name.
abbrev pub HasSlice : String → WizardState → String → Type 0
HasSlice app w name = includes (source_lines app w) (template (name ∷ ":" ∷ [])) ≡ true

-- The lines of the shared slices are lines of the recipe.
HasSlice-shared :
    (app : String) (w : WizardState) (line : String)
    → includes (shared_blocks (or_else app "app") (collect_shared w.services nothing_shared)) line
      ≡ true
    → includes (source_lines app w) line ≡ true
unfolding source_lines
HasSlice-shared app w line h =
    let name = or_else app "app" in
    let blocks : List String =
      if length w.services == 1 && is_database_only w.selected_combo
      then []
      else service_blocks name w.services in
    ground (
      arith,
      h,
      includes-append blocks (shared_blocks name (collect_shared w.services nothing_shared)) line,
    )

db-HasSlice :
    (app : String) (w : WizardState)
    → any needs_db w.services ≡ true
    → HasSlice app w (db_name (or_else app "app"))
db-HasSlice app w h =
    let name = or_else app "app" in
    let sh = collect_shared w.services nothing_shared in
    let has : sh.has_db ≡ true = ground (arith, collect_shared-has_db w.services nothing_shared) in
    HasSlice-shared app w (template (db_name name ∷ ":" ∷ [])) (rw (has, eq_refl) refl)

cache-HasSlice :
    (app : String) (w : WizardState) → any needs_cache w.services ≡ true → HasSlice app w "cache"
unfolding template
cache-HasSlice app w h =
    let name = or_else app "app" in
    let sh = collect_shared w.services nothing_shared in
    let has : sh.has_cache ≡ true =
      ground (arith, collect_shared-has_cache w.services nothing_shared) in
    HasSlice-shared app w "cache:"
      (ground (arith, includes-append (db_block name sh) (cache_block sh) "cache:"))

dep_needs-HasSlice :
    (app : String) (w : WizardState) (dep : Option DependencyConfig) (name : String)
    → (is_given dep ≡ true → HasSlice app w name)
    → All (HasSlice app w) (dep_needs dep name)
dep_needs-HasSlice app w none name h = tt
dep_needs-HasSlice app w (some d) name h = (h refl, tt)

one-HasSlice :
    (app : String) (w : WizardState) (s : ServiceInterviewState)
    → (needs_db s ≡ true → HasSlice app w (db_name (or_else app "app")))
    → (needs_cache s ≡ true → HasSlice app w "cache")
    → All (HasSlice app w) (shared_needs (or_else app "app") s)
one-HasSlice app w s db ch =
    All-append (HasSlice app w) _ _ (dep_needs-HasSlice app w (enabled_dep database s) _ db)
      (dep_needs-HasSlice app w (enabled_dep cache s) "cache" ch)

-- The database and the cache that a service needs are slices of the recipe, whatever the order.
pub shared_needs-HasSlice :
    (app : String) (w : WizardState)
    → All (λ s. All (HasSlice app w) (shared_needs (or_else app "app") s)) w.services
shared_needs-HasSlice app w =
    join w.services (All-any needs_db w.services) (All-any needs_cache w.services)
  where
    join :
        (svcs : List ServiceInterviewState)
        → All (λ s. needs_db s ≡ true → any needs_db w.services ≡ true) svcs
        → All (λ s. needs_cache s ≡ true → any needs_cache w.services ≡ true) svcs
        → All (λ s. All (HasSlice app w) (shared_needs (or_else app "app") s)) svcs
    join [] db ch = tt
    join (s ∷ svcs) db ch = (
      one-HasSlice app w s (λ e. db-HasSlice app w (db.0 e)) (λ e. cache-HasSlice app w (ch.0 e)),
      join svcs db.1 ch.1,
    )
