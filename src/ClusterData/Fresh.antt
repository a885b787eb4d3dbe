-- ===== src/ClusterData/Fresh.antt =====
-- Which data useClusterData.ts shows, and how old it is.
use mozza.Prelude.{
  ℕ, ◌+◌, ◌≡◌, true, false, ◌&&◌, none, some, List, [], ◌∷◌, String, arith, eq_refl, any, string_eq,
  nat_eq,
}
use Prim.Native.Nat.{◌<◌}
use mozza.ClusterData.{
  CacheEntry, Instance, Cluster, mount, resolve, invalidate_cluster_cache, asked, awaits, lookup,
  put, new_instance,
}

module _ {D : Type 0} where
  lookup-put :
      (key : String) (e : CacheEntry D) (m : List (String × CacheEntry D))
      → lookup key (put key e m) ≡ some e
  lookup-put key e [] = ground (arith, eq_refl key)
  lookup-put key e ((k, f) ∷ m) = ground (arith, eq_refl key, lookup-put key e m)

  -- The entry of a result that comes now.
  abbrev entry_of : ℕ → D → CacheEntry D
  entry_of now d = record { data_of = d; timestamp = now; stale = false; error_code = none }

  lookup-resolve :
      (now : ℕ) (key : String) (d : D) (c : Cluster D)
      → any (λ i. awaits key i && i.mounted) c.instances ≡ true
      → lookup key (resolve now key d c).cache ≡ some (entry_of now d)
  unfolding resolve
  lookup-resolve now key d c awaited = rw awaited (lookup-put key (entry_of now d) c.cache)

  -- The instance shows this data, as current, and is not loading.
  abbrev pub Shows : D → Instance D → Type 0
  Shows d i = (i.data_of ≡ some d) × ((i.loading ≡ false) × (i.stale ≡ false))

  -- Where a mounted use of the hook awaits a fetch and its result comes, another use that is
  -- mounted before the time to live is over shows the result at once, and no fetch is started.
  pub resolve-mount :
      (now later ttl : ℕ) (key : String) (d : D) (c : Cluster D)
      → any (λ i. awaits key i && i.mounted) c.instances ≡ true
      → later < now + ttl
      → Shows d (asked false later ttl (resolve now key d c) (new_instance key))
        × ((mount later ttl key (resolve now key d c)).inflight ≡ (resolve now key d c).inflight)
  unfolding mount
  resolve-mount now later ttl key d c awaited early =
      let found = lookup-resolve now key d c awaited in
      ((ground arith, (ground arith, ground arith)), ground arith)

  -- A result that a mounted use of the hook awaits while the cache is invalidated is cached when
  -- it comes, and shown as current by a use that is mounted before the time to live is over.
  pub invalidate-resolve :
      (now later ttl : ℕ) (key : String) (d : D) (c : Cluster D)
      → any (λ i. awaits key i && i.mounted) c.instances ≡ true
      → later < now + ttl
      → Shows d (
          asked false later ttl (resolve now key d (invalidate_cluster_cache c)) (new_instance key))
  unfolding invalidate_cluster_cache
  invalidate-resolve now later ttl key d c awaited early =
      (resolve-mount now later ttl key d (invalidate_cluster_cache c) awaited early).0
