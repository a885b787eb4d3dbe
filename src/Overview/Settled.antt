-- ===== src/Overview/Settled.antt =====
-- ui/src/pages/OverviewPage.tsx: what holds of the page whatever answers arrive.
use mozza.Prelude.{
  ℕ, zero, suc, ◌≡◌, refl, ap, Bool, true, false, not, ◌||◌, Option, none, some, List, [], ◌∷◌,
  ◌++◌, String, arith, Option-cases, inl, inr,
}
use mozza.Overview.{
  Overview, Flight, wants_clusters, wants_cluster, wants_deploys, fetch_data, first_overview, ended,
  goes_on, without_cluster, clusters_listed, with_cluster, cluster_answered, deploys_listed,
  not_fetched, OverviewAnswer, clusters, cluster, deploys, failed, landed, flight_at,
  without_flight, OverviewEvent, fetch, toggle_events, arrive, overview_event, overview_events,
  has_some,
}

abbrev pub is_known : {T : Type 0} → Option T → Bool
is_known none = false
is_known (some x) = true

-- While the page says that it loads, a call is on its way; and until the cluster has answered once, there
-- is nothing of it.
abbrev pub IsSettled : Overview → Type 0
IsSettled o =
    ((not o.loading || has_some o.flights) ≡ true)
    × ((is_known o.metrics || not (has_some o.pods)) ≡ true)
    × ((is_known o.metrics || not (is_known o.cluster_info)) ≡ true)

has_some-snoc : (fs : List Flight) (f : Flight) → has_some (fs ++ f ∷ []) ≡ true
has_some-snoc [] f = refl
has_some-snoc (g ∷ fs) f = refl

goes_on_loading :
    (b : Bool) (fs : List Flight) (f : Flight) → (not b || has_some (fs ++ f ∷ [])) ≡ true
goes_on_loading b fs f = ground (arith, has_some-snoc fs f)

-- What is left of it when a call has been taken off the list.
abbrev pub IsFed : Overview → Type 0
IsFed o =
    ((is_known o.metrics || not (has_some o.pods)) ≡ true)
    × ((is_known o.metrics || not (is_known o.cluster_info)) ≡ true)

goes_on-IsSettled : (f : Flight) (o : Overview) → IsFed o → IsSettled (goes_on f o)
goes_on-IsSettled f o (a, b) = (goes_on_loading o.loading o.flights f, a, b)

ended-IsSettled : (o : Overview) → IsFed o → IsSettled (ended o)
ended-IsSettled o (a, b) = (refl, a, b)

without_cluster-IsSettled :
    (team : Option String) (o : Overview) → IsFed o → IsSettled (without_cluster team o)
without_cluster-IsSettled none o h = ended-IsSettled o h
without_cluster-IsSettled (some team) o h = goes_on-IsSettled (wants_deploys team) o h

clusters_listed-IsSettled :
    (team : Option String) (cs : List String) (o : Overview)
    → IsFed o
    → IsSettled (clusters_listed team cs o)
unfolding clusters_listed
clusters_listed-IsSettled team [] o h =
    without_cluster-IsSettled team (record o { has_cluster = some false }) h
clusters_listed-IsSettled team (c ∷ cs) o h =
    goes_on-IsSettled (wants_cluster team) (record o { has_cluster = some true }) h

with_cluster-IsSettled :
    (team : Option String) (o : Overview) → IsFed o → IsSettled (with_cluster team o)
with_cluster-IsSettled none o h = ended-IsSettled (record o { recent_deploys = [] }) h
with_cluster-IsSettled (some team) o h = goes_on-IsSettled (wants_deploys team) o h

landed-IsSettled :
    (f : Flight) (a : OverviewAnswer) (o : Overview) → IsFed o → IsSettled (landed f a o)
unfolding cluster_answered deploys_listed not_fetched
landed-IsSettled (wants_clusters team) (clusters cs) o h = clusters_listed-IsSettled team cs o h
landed-IsSettled (wants_clusters team) (failed message) o h =
    ended-IsSettled (record o { error = some message }) h
landed-IsSettled (wants_cluster team) (cluster a) o h =
    with_cluster-IsSettled team
      (record o {
        cluster_info = some a.info;
        metrics = some a.metrics;
        pods = a.pods;
        events = a.events;
      })
      (refl, refl)
landed-IsSettled (wants_cluster team) (failed message) o h =
    ended-IsSettled (record o { error = some message }) h
landed-IsSettled (wants_deploys team) (deploys none) o h =
    ended-IsSettled (record o { recent_deploys = [] }) h
landed-IsSettled (wants_deploys team) (deploys (some ds)) o h =
    ended-IsSettled (record o { recent_deploys = ds }) h
landed-IsSettled f a o h = goes_on-IsSettled f o h

without_none : (n : ℕ) (fs : List Flight) → flight_at n fs ≡ none → without_flight n fs ≡ fs
without_none n [] h = refl
without_none zero (f ∷ fs) h = ground arith
without_none (suc n) (f ∷ fs) h = ap (λ gs. f ∷ gs) (without_none n fs h)

event-IsSettled : (e : OverviewEvent) (o : Overview) → IsSettled o → IsSettled (overview_event e o)
unfolding overview_event fetch_data
event-IsSettled (fetch team) o (x, a, b) =
    (goes_on_loading true o.flights (wants_clusters team), a, b)
event-IsSettled toggle_events o h = h
event-IsSettled (arrive n a) o (x, y, z) = elim (Option-cases (flight_at n o.flights)) [
  | inl e ↦ rw (e, without_none n o.flights e) (x, y, z)
  | inr (f, e) ↦
      rw e (landed-IsSettled f a (record o { flights = without_flight n o.flights }) (y, z))
]

events-IsSettled :
    (es : List OverviewEvent) (o : Overview) → IsSettled o → IsSettled (overview_events es o)
events-IsSettled [] o h = h
events-IsSettled (e ∷ es) o h = events-IsSettled es (overview_event e o) (event-IsSettled e o h)

-- Whatever answers arrive, in whatever order and to whichever calls: while the page says that it loads, a
-- call is on its way; and as long as the cluster has given no metrics, no pods and no nodes of it are kept.
pub overview_events-IsSettled :
    (team : Option String) (es : List OverviewEvent)
    → let o = overview_events es (first_overview team) in
      ((not o.loading || has_some o.flights) ≡ true)
      × ((is_known o.metrics || not (has_some o.pods)) ≡ true)
      × ((is_known o.metrics || not (is_known o.cluster_info)) ≡ true)
unfolding first_overview fetch_data
overview_events-IsSettled team es = events-IsSettled es (first_overview team) (refl, refl, refl)
