-- ===== src/ClusterData.antt =====
-- ui/src/hooks/useClusterData.ts: the data of the cluster, fetched once for all components that
-- ask for it, and kept for a while.
pub mod Waiting
pub mod Fresh
mod Tests
use mozza.Prelude.{
  ℕ, suc, ◌+◌, Bool, true, false, not, ◌&&◌, ◌||◌, Option, none, some, List, [], ◌∷◌, ◌++◌, map,
  String, filter, any, includes, get_elem?, set, ltb, ◌==◌, string_eq, nat_eq, if◌then◌else◌,
}

pub record CacheEntry (D : Type 0) : Type 0 where
  pub data_of : D
  pub timestamp : ℕ
  pub stale : Bool
  pub error_code : Option String

-- One use of the hook: its state, whether it is mounted, and whether it awaits a fetch.
pub record Instance (D : Type 0) : Type 0 where
  pub key : String
  pub data_of : Option D
  pub loading : Bool
  pub error : Option String
  pub error_code : Option String
  pub stale : Bool
  pub mounted : Bool
  pub waiting : Bool

-- The maps `cache` and `inflight`, the latter by its keys, and all uses of the hook.
pub record Cluster (D : Type 0) : Type 0 where
  pub cache : List (String × CacheEntry D)
  pub inflight : List String
  pub instances : List (Instance D)

-- What a fetch that fails throws, if it is an object.
pub record Failure : Type 0 where
  pub code : Option String
  pub message : Option String
  pub error : Option String

abbrev pub default_ttl_ms : ℕ
default_ttl_ms = 15000

-- `msg`: the message, or else the error, of an object that has one.
abbrev message_of : Option Failure → String
message_of none = "Failed to fetch"
message_of (some f) = elim f.message [
  | some m ↦ m
  | none ↦ elim f.error [ some e ↦ e | none ↦ "Failed to fetch" ]
]

abbrev code_of : Option Failure → Option String
code_of none = none
code_of (some f) = f.code

module _ {D : Type 0} where
  -- `cache.get(key)`
  abbrev pub lookup : String → List (String × CacheEntry D) → Option (CacheEntry D)
  lookup key [] = none
  lookup key ((k, e) ∷ m) = if k == key then some e else lookup key m

  -- `cache.delete(key)`
  abbrev pub delete : String → List (String × CacheEntry D) → List (String × CacheEntry D)
  delete key m = filter (λ ke. not (ke.0 == key)) m

  -- `cache.set(key, e)`
  abbrev pub put :
      String → CacheEntry D → List (String × CacheEntry D) → List (String × CacheEntry D)
  put key e [] = (key, e) ∷ []
  put key e ((k, f) ∷ m) = if k == key then (k, e) ∷ m else (k, f) ∷ put key e m

  -- `Date.now() - cached.timestamp < ttlMs`
  abbrev pub is_fresh : ℕ → ℕ → CacheEntry D → Bool
  is_fresh now ttl e = ltb now (e.timestamp + ttl)

  abbrev serve : CacheEntry D → Instance D → Instance D
  serve e i = record i {
    data_of = some e.data_of;
    stale = e.stale;
    loading = false;
    error = none;
    error_code = e.error_code;
  }

  -- Old data is shown while new data is fetched.
  abbrev serve_stale : Option (CacheEntry D) → Instance D → Instance D
  serve_stale none i = i
  serve_stale (some e) i = record i { data_of = some e.data_of; stale = true; loading = false }

  abbrev usable : ℕ → ℕ → Option (CacheEntry D) → Bool
  usable now ttl none = false
  usable now ttl (some e) = is_fresh now ttl e

  abbrev serve_if : Option (CacheEntry D) → Instance D → Instance D
  serve_if none i = i
  serve_if (some e) i = serve e i

  -- What `doFetch` finds in the cache, unless it bypasses it.
  abbrev pub cached : Bool → String → Cluster D → Option (CacheEntry D)
  cached true key c = none
  cached false key c = lookup key c.cache

  -- The instance after `doFetch`, up to its `await`.
  abbrev pub asked : Bool → ℕ → ℕ → Cluster D → Instance D → Instance D
  asked bypass now ttl c i =
      if usable now ttl (cached bypass i.key c)
      then serve_if (cached bypass i.key c) i
      else record (serve_stale (cached bypass i.key c) i) { waiting = true }

  -- The keys in flight after `doFetch`: a fetch that is there is shared.
  abbrev pub joined : Bool → ℕ → ℕ → Cluster D → Instance D → List String
  joined bypass now ttl c i =
      if usable now ttl (cached bypass i.key c) || includes c.inflight i.key
      then c.inflight
      else c.inflight ++ i.key ∷ []

  abbrev pub new_instance : String → Instance D
  new_instance key = record {
    key = key;
    data_of = none;
    loading = true;
    error = none;
    error_code = none;
    stale = false;
    mounted = true;
    waiting = false;
  }

  -- A component with the hook is mounted.
  pub mount : ℕ → ℕ → String → Cluster D → Cluster D
  mount now ttl key c = record c {
    inflight = joined false now ttl c (new_instance key);
    instances = c.instances ++ asked false now ttl c (new_instance key) ∷ [];
  }

  -- `refresh` of instance `n`.
  pub refresh : ℕ → ℕ → ℕ → Cluster D → Cluster D
  refresh now ttl n c = elim (get_elem? c.instances n) [
    | none ↦ c
    | some i ↦
        let d : Cluster D = record c { cache = delete i.key c.cache } in
        record d {
          inflight = joined true now ttl d (record i { loading = true });
          instances = set c.instances n (asked true now ttl d (record i { loading = true }));
        }
  ]

  pub unmount : ℕ → Cluster D → Cluster D
  unmount n c = elim (get_elem? c.instances n) [
    | none ↦ c
    | some i ↦ record c { instances = set c.instances n (record i { mounted = false }) }
  ]

  -- Whether the instance awaits the fetch of this key.
  abbrev pub awaits : String → Instance D → Bool
  awaits key i = i.key == key && i.waiting

  abbrev take_result : D → Instance D → Instance D
  take_result d i = record i {
    data_of = some d;
    stale = false;
    error = none;
    error_code = none;
    loading = false;
  }

  abbrev resolved : String → D → Instance D → Instance D
  resolved key d i =
      if awaits key i
      then record (if i.mounted then take_result d i else i) { waiting = false }
      else i

  -- The fetch of a key gives a result; an instance that is mounted puts it into the cache.
  pub resolve : ℕ → String → D → Cluster D → Cluster D
  resolve now key d c = record {
    cache =
        if any (λ i. awaits key i && i.mounted) c.instances
        then put key (record { data_of = d; timestamp = now; stale = false; error_code = none })
            c.cache
        else c.cache;
    inflight = filter (λ k. not (k == key)) c.inflight;
    instances = map (resolved key d) c.instances;
  }

  abbrev failed : String → Option Failure → Instance D → Instance D
  failed key f i =
      if awaits key i
      then record (if i.mounted
          then record i { error = some (message_of f); error_code = code_of f; loading = false }
          else i) { waiting = false }
      else i

  -- The fetch of a key fails.
  pub reject : String → Option Failure → Cluster D → Cluster D
  reject key f c = record c {
    inflight = filter (λ k. not (k == key)) c.inflight;
    instances = map (failed key f) c.instances;
  }

  -- `invalidateClusterCache`
  pub invalidate_cluster_cache : Cluster D → Cluster D
  invalidate_cluster_cache c = record c { cache = [] }
