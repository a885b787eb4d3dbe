-- ===== src/ClusterData/Waiting/Events.antt =====
-- Sequences of events of useClusterData.ts: uses of the hook come and go, and fetches settle.
use mozza.Prelude.{
  ℕ, refl, true, false, not, Option, List, [], ◌∷◌, String, arith, filter, get_elem?, Option-cases,
  inl, inr, ◌==◌, string_eq, nat_eq,
}
use mozza.ClusterData.{
  Instance, Cluster, Failure, mount, refresh, unmount, resolve, reject, invalidate_cluster_cache,
  asked, joined, new_instance,
}
use mozza.ClusterData.Waiting.{
  IsSound, no_repeats-filter, joined-no_repeats, joined-grows, asked-is_served, served_mono,
  served-append, served-set, served-get_elem?, served-map,
}

-- What can happen, at a time and with a time to live where these count.
pub data Event (D : Type 0) : Type 0 where
  mounts : ℕ → ℕ → String → Event D
  refreshes : ℕ → ℕ → ℕ → Event D
  unmounts : ℕ → Event D
  resolves : ℕ → String → D → Event D
  rejects : String → Option Failure → Event D
  invalidates : Event D

module _ {D : Type 0} where
  pub handle : Event D → Cluster D → Cluster D
  handle (mounts now ttl key) c = mount now ttl key c
  handle (refreshes now ttl n) c = refresh now ttl n c
  handle (unmounts n) c = unmount n c
  handle (resolves now key d) c = resolve now key d c
  handle (rejects key f) c = reject key f c
  handle invalidates c = invalidate_cluster_cache c

  abbrev pub handle_all : List (Event D) → Cluster D → Cluster D
  handle_all [] c = c
  handle_all (e ∷ es) c = handle_all es (handle e c)

  refresh-IsSound : (now ttl n : ℕ) (c : Cluster D) → IsSound c → IsSound (refresh now ttl n c)
  unfolding refresh
  refresh-IsSound now ttl n c v = elim (Option-cases (get_elem? c.instances n)) [
    | inl missing ↦ rw (missing, refresh) v
    | inr (i, found) ↦
        let d : Cluster D = record c { cache = filter (λ ke. not (ke.0 == i.key)) c.cache } in
        let j : Instance D = record i { loading = true } in
        rw (found, refresh)
          (record {
            distinct = joined-no_repeats true now ttl d j v.distinct;
            served =
                served-set (joined true now ttl d j) c.instances n (asked true now ttl d j)
                  (served_mono c.inflight (joined true now ttl d j) c.instances
                    (joined-grows true now ttl d j) v.served)
                  (asked-is_served true now ttl d j
                    (served-get_elem? c.inflight c.instances n i v.served found));
          })
  ]

  unmount-IsSound : (n : ℕ) (c : Cluster D) → IsSound c → IsSound (unmount n c)
  unfolding unmount
  unmount-IsSound n c v = elim (Option-cases (get_elem? c.instances n)) [
    | inl missing ↦ rw (missing, unmount) v
    | inr (i, found) ↦
        rw (found, unmount)
          (record {
            distinct = v.distinct;
            served =
                served-set c.inflight c.instances n (record i { mounted = false }) v.served
                  (served-get_elem? c.inflight c.instances n i v.served found);
          })
  ]

  handle-IsSound : (e : Event D) (c : Cluster D) → IsSound c → IsSound (handle e c)
  unfolding handle mount resolve reject invalidate_cluster_cache
  handle-IsSound (mounts now ttl key) c v =
      let i : Instance D = new_instance key in
      record {
        distinct = joined-no_repeats false now ttl c i v.distinct;
        served =
            served-append (joined false now ttl c i) c.instances (asked false now ttl c i)
              (served_mono c.inflight (joined false now ttl c i) c.instances
                (joined-grows false now ttl c i) v.served)
              (asked-is_served false now ttl c i refl);
      }
  handle-IsSound (refreshes now ttl n) c v = refresh-IsSound now ttl n c v
  handle-IsSound (unmounts n) c v = unmount-IsSound n c v
  handle-IsSound (resolves now key d) c v = record {
    distinct = no_repeats-filter key c.inflight v.distinct;
    served = served-map key c.inflight _ c.instances (λ i. (ground arith, ground arith)) v.served;
  }
  handle-IsSound (rejects key f) c v = record {
    distinct = no_repeats-filter key c.inflight v.distinct;
    served = served-map key c.inflight _ c.instances (λ i. (ground arith, ground arith)) v.served;
  }
  handle-IsSound invalidates c v = record { distinct = v.distinct; served = v.served }

  -- Where there is one fetch in flight for a key at most, and every use of the hook that awaits
  -- a fetch awaits one that is in flight, this stays so whatever happens.
  pub handle_all-IsSound :
      (es : List (Event D)) (c : Cluster D) → IsSound c → IsSound (handle_all es c)
  handle_all-IsSound [] c v = v
  handle_all-IsSound (e ∷ es) c v = handle_all-IsSound es (handle e c) (handle-IsSound e c v)
