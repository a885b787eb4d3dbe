-- ===== src/ClusterData/Waiting.antt =====
-- The fetches in flight of useClusterData.ts, and the uses of the hook that await them.
pub mod Events
use mozza.Prelude.{
  ℕ, suc, zero, ◌+◌, ◌≡◌, refl, Bool, true, false, not, ◌&&◌, ◌||◌, Option, none, some, List, [],
  ◌∷◌, ◌++◌, map, String, arith, eq_iff, filter, any, all, includes, includes-append, get_elem?,
  set, Option-cases, inl, inr, ◌==◌, string_eq, nat_eq, if◌then◌else◌,
}
use mozza.ClusterData.{
  CacheEntry, Instance, Cluster, Failure, mount, refresh, unmount, resolve, reject,
  invalidate_cluster_cache, asked, joined, cached, awaits,
}

abbrev pub no_repeats : List String → Bool
no_repeats [] = true
no_repeats (k ∷ ks) = not (includes ks k) && no_repeats ks

no_repeats-append :
    (ks : List String) (k : String)
    → no_repeats ks ≡ true
    → includes ks k ≡ false
    → no_repeats (ks ++ k ∷ []) ≡ true
no_repeats-append [] k h new = refl
no_repeats-append (j ∷ ks) k h new =
    ground (arith, includes-append ks (k ∷ []) j, no_repeats-append ks k, eq_iff j k, eq_iff k j)

includes-filter :
    (key : String) (ks : List String) (j : String)
    → includes (filter (λ k. not (k == key)) ks) j ≡ (includes ks j && not (j == key))
includes-filter key [] j = refl
includes-filter key (k ∷ ks) j =
    ground (arith, includes-filter key ks j, eq_iff k j, eq_iff j k, eq_iff k key, eq_iff j key)

no_repeats-filter :
    (key : String) (ks : List String)
    → no_repeats ks ≡ true
    → no_repeats (filter (λ k. not (k == key)) ks) ≡ true
no_repeats-filter key [] h = h
no_repeats-filter key (k ∷ ks) h =
    ground (arith, includes-filter key ks k, no_repeats-filter key ks)

module _ {D : Type 0} where
  -- An instance that awaits a fetch awaits one that is in flight.
  abbrev pub is_served : List String → Instance D → Bool
  is_served inflight i = not i.waiting || includes inflight i.key

  pub record IsSound (c : Cluster D) : Type 0 where
    pub distinct : no_repeats c.inflight ≡ true
    pub served : all (is_served c.inflight) c.instances ≡ true

  joined-no_repeats :
      (bypass : Bool) (now ttl : ℕ) (c : Cluster D) (i : Instance D)
      → no_repeats c.inflight ≡ true
      → no_repeats (joined bypass now ttl c i) ≡ true
  joined-no_repeats bypass now ttl c i h = ground (arith, no_repeats-append c.inflight i.key h)

  joined-grows :
      (bypass : Bool) (now ttl : ℕ) (c : Cluster D) (i : Instance D) (k : String)
      → includes c.inflight k ≡ true
      → includes (joined bypass now ttl c i) k ≡ true
  joined-grows bypass now ttl c i k h = ground (arith, includes-append c.inflight (i.key ∷ []) k)

  -- An instance that asks for its key is served from then on.
  asked-is_served :
      (bypass : Bool) (now ttl : ℕ) (c : Cluster D) (i : Instance D)
      → is_served c.inflight i ≡ true
      → is_served (joined bypass now ttl c i) (asked bypass now ttl c i) ≡ true
  asked-is_served bypass now ttl c i h =
      ground (arith, includes-append c.inflight (i.key ∷ []) i.key, eq_iff i.key i.key)

  served_mono :
      (ks js : List String) (is : List (Instance D))
      → ((k : String) → includes ks k ≡ true → includes js k ≡ true)
      → all (is_served ks) is ≡ true
      → all (is_served js) is ≡ true
  served_mono ks js [] keep h = h
  served_mono ks js (i ∷ is) keep h = ground (arith, keep i.key, served_mono ks js is keep)

  served-append :
      (ks : List String) (is : List (Instance D)) (i : Instance D)
      → all (is_served ks) is ≡ true
      → is_served ks i ≡ true
      → all (is_served ks) (is ++ i ∷ []) ≡ true
  served-append ks [] i h s = ground arith
  served-append ks (j ∷ is) i h s = ground (arith, served-append ks is i)

  served-set :
      (ks : List String) (is : List (Instance D)) (n : ℕ) (i : Instance D)
      → all (is_served ks) is ≡ true
      → is_served ks i ≡ true
      → all (is_served ks) (set is n i) ≡ true
  served-set ks [] n i h s = h
  served-set ks (j ∷ is) zero i h s = ground arith
  served-set ks (j ∷ is) (suc n) i h s = ground (arith, served-set ks is n i)

  served-get_elem? :
      (ks : List String) (is : List (Instance D)) (n : ℕ) (i : Instance D)
      → all (is_served ks) is ≡ true
      → get_elem? is n ≡ some i
      → is_served ks i ≡ true
  served-get_elem? ks [] n i h e = ground arith
  served-get_elem? ks (j ∷ is) zero i h e = ground arith
  served-get_elem? ks (j ∷ is) (suc n) i h e = served-get_elem? ks is n i (ground arith) e

  -- Once a fetch is settled, no instance awaits it.
  served-map :
      (key : String) (ks : List String) (f : Instance D → Instance D) (is : List (Instance D))
      → ((i : Instance D)
          → ((f i).key ≡ i.key) × ((f i).waiting ≡ (i.waiting && not (i.key == key))))
      → all (is_served ks) is ≡ true
      → all (is_served (filter (λ k. not (k == key)) ks)) (map f is) ≡ true
  served-map key ks f [] settles h = h
  served-map key ks f (i ∷ is) settles h =
      ground (arith, settles i, includes-filter key ks i.key, served-map key ks f is settles)
