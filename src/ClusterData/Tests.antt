-- ===== src/ClusterData/Tests.antt =====
-- Two uses of one key, and the theorems about fetches at them.
use mozza.Prelude.{◌≡◌, refl, List, [], ◌∷◌, String}
use mozza.ClusterData.{Cluster, mount, refresh, default_ttl_ms}
use mozza.ClusterData.Waiting.{IsSound}
use mozza.ClusterData.Waiting.Events.{Event, mounts, refreshes, handle_all, handle_all-IsSound}

abbrev empty_cluster : Cluster String
empty_cluster = record { cache = []; inflight = []; instances = [] }

abbrev two_uses : List (Event String)
two_uses =
    mounts 0 default_ttl_ms "pods"
    ∷ mounts 1 default_ttl_ms "pods"
    ∷ refreshes 2 default_ttl_ms 0
    ∷ []

-- The second use and the refresh share the fetch of the first.
one_fetch :
    (refresh 2 default_ttl_ms 0
      (mount 1 default_ttl_ms "pods" (mount 0 default_ttl_ms "pods" empty_cluster))).inflight
    ≡ "pods" ∷ []
unfolding mount refresh
one_fetch = refl

IsSound-empty : IsSound empty_cluster
IsSound-empty = record { distinct = refl; served = refl }

handle_all-IsSound_example : IsSound (handle_all two_uses empty_cluster)
handle_all-IsSound_example = handle_all-IsSound two_uses empty_cluster IsSound-empty

abbrev waiting_cluster : Cluster String
waiting_cluster = mount 0 default_ttl_ms "pods" empty_cluster
