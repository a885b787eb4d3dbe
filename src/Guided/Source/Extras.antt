-- ===== src/Guided/Source/Extras.antt =====
-- The slices that GuidedWizard.tsx adds for the databases and the caches that its services need.
use mozza.Prelude.{
  ℕ, ◌+◌, ◌≡◌, refl, sym, ◌∙◌, ap, Bool, false, not, ◌&&◌, ◌||◌, some, List, [], ◌∷◌, ◌++◌, map,
  String, arith, length, length-append, filter, filter-append, find, find_iff, any, includes, ◌==◌,
  string_eq, if◌then◌else◌, eq_iff, Option-cases, Bool-cases, inl, inr, ltb, includes-append,
}
use mozza.Guided.{GuidedService, DbOption, db_options, is_option}
use mozza.Guided.Source.{Slice, slice_key, db_extra, cache_extra, extras}

-- How many of the slices are known by a text.
abbrev pub count : String → List Slice → ℕ
count k es = length (filter (λ e. slice_key e == k) es)

count-append : (k : String) (es fs : List Slice) → count k (es ++ fs) ≡ count k es + count k fs
count-append k es fs =
    ap length (filter-append (λ e. slice_key e == k) es fs)
    ∙ length-append (filter (λ e. slice_key e == k) es) (filter (λ e. slice_key e == k) fs)

-- Whether the service needs the database.
abbrev pub asks : String → GuidedService → Bool
asks k svc = svc.needs_db && svc.db_engine == k && is_option svc.db_engine

-- Whether the service needs the slice.
abbrev pub requests : String → GuidedService → Bool
requests k svc = asks k svc || svc.needs_cache && "redis" == k

abbrev pub once : Bool → ℕ
once b = if b then 1 else 0

find-slice_key :
    (os : List DbOption) (id : String) (d : DbOption)
    → find (λ o. o.id == id) os ≡ some d
    → d.id ≡ id
find-slice_key [] id d h = ground arith
find-slice_key (o ∷ os) id d h = ground (arith, eq_iff o.id id, find-slice_key os id d)

count-db_extra :
    (added : List String) (svc : GuidedService) (k : String)
    → count k (db_extra added svc) ≡ once (asks k svc && not (includes added k))
count-db_extra added svc k = elim (Option-cases (find (λ d. d.id == svc.db_engine) db_options)) [
  | inl missing ↦ ground (arith, (find_iff (λ d. d.id == svc.db_engine) db_options).0 missing)
  | inr (d, found) ↦ ground (
    arith,
    find-slice_key db_options svc.db_engine d found,
    eq_iff d.id k,
    eq_iff svc.db_engine k,
    find_iff (λ d. d.id == svc.db_engine) db_options,
  )
]

count-cache_extra :
    (added : List String) (svc : GuidedService) (k : String)
    → count k (cache_extra added svc)
      ≡ once (svc.needs_cache && "redis" == k && not (includes added "redis"))
count-cache_extra added svc k = ground arith

includes-slice_key :
    (es : List Slice) (k : String) → includes (map slice_key es) k ≡ ltb 0 (count k es)
includes-slice_key [] k = refl
includes-slice_key (e ∷ es) k = ground (arith, includes-slice_key es k)

-- What is added is counted, and from then on is there.
includes_added :
    (es : List Slice) (added : List String) (k : String)
    → includes (map slice_key es ++ added) k ≡ (ltb 0 (count k es) || includes added k)
includes_added es added k =
    includes-append (map slice_key es) added k
    ∙ ap (λ b. b || includes added k) (includes-slice_key es k)

asks-redis : (svc : GuidedService) → asks "redis" svc ≡ false
asks-redis svc = elim (Bool-cases (svc.db_engine == "redis")) [
  | inl same ↦ rw ((eq_iff svc.db_engine "redis").0 same) (ground arith)
  | inr other ↦ rw other (ground arith)
]

count-service :
    (added : List String) (svc : GuidedService) (k : String)
    → let dbs = db_extra added svc in
      count k dbs + count k (cache_extra (map slice_key dbs ++ added) svc)
      ≡ once (requests k svc && not (includes added k))
count-service added svc k =
    let dbs = db_extra added svc in
    rw
      (
        count-cache_extra (map slice_key dbs ++ added) svc k,
        includes_added dbs added "redis",
        count-db_extra added svc k,
        count-db_extra added svc "redis",
        asks-redis svc,
      )
      (elim (Bool-cases ("redis" == k)) [
        | inl same ↦ rw (sym ((eq_iff "redis" k).0 same)) (rw (asks-redis svc) (ground arith))
        | inr other ↦ rw other (ground arith)
      ])

-- What is there after a service is not counted again for the rest.
once_more :
    (d c : ℕ) (asked rest there after : Bool)
    → d + c ≡ once (asked && not there)
    → after ≡ (ltb 0 c || (ltb 0 d || there))
    → d + (c + once (rest && not after)) ≡ once ((asked || rest) && not there)
once_more d c asked rest there after h e = ground arith

-- Each of the offered databases, and the cache, gets one slice if some service needs it and it has
-- none yet; nothing else gets one.
pub count-extras :
    (added : List String) (svcs : List GuidedService) (k : String)
    → count k (extras added svcs) ≡ once (any (requests k) svcs && not (includes added k))
unfolding extras
count-extras added [] k = refl
count-extras added (svc ∷ svcs) k =
    let dbs = db_extra added svc in
    let caches = cache_extra (map slice_key dbs ++ added) svc in
    let after = map slice_key caches ++ (map slice_key dbs ++ added) in
    rw
      (
        count-append k dbs (caches ++ extras after svcs),
        count-append k caches (extras after svcs),
        count-extras after svcs k,
      )
      (once_more (count k dbs) (count k caches) (requests k svc) (any (requests k) svcs)
        (includes added k) (includes after k) (count-service added svc k)
        (includes_added caches (map slice_key dbs ++ added) k
          ∙ ap (λ b. ltb 0 (count k caches) || b) (includes_added dbs added k)))
