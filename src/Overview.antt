-- ===== src/Overview.antt =====
-- ui/src/pages/OverviewPage.tsx: what the page fetches, in which order, and the numbers that it shows.
pub mod Settled
mod Tests
use mozza.Prelude.{
  ℕ, zero, suc, Bool, true, false, not, ◌&&◌, ◌||◌, Option, none, some, List, [], ◌∷◌, ◌++◌, String,
  length, filter, includes, ◌==◌, string_eq, if◌then◌else◌,
}
use mozza.Monitoring.{ClusterPod}
use mozza.Deployments.{Deployment}

pub record ClusterMetrics : Type 0 where
  pub nodes : ℕ
  pub total_pods : ℕ
  pub running_pods : ℕ
  pub pending_pods : ℕ
  pub failed_pods : ℕ
  pub uptime : String

pub record ClusterInfo : Type 0 where
  pub connected : Bool
  pub nodes : List String

pub record ClusterEvent : Type 0 where
  pub kind : String
  pub message : String

-- What the five requests that are made together answer.
pub record ClusterAnswer : Type 0 where
  pub info : ClusterInfo
  pub metrics : ClusterMetrics
  pub pods : List ClusterPod
  pub events : List ClusterEvent

-- What a call of `fetchData` waits for, with the team for which it was made: the list of the clusters, what
-- the cluster answers, or the deployments, as the last thing.
pub data Flight : Type 0 where
  wants_clusters wants_cluster : Option String → Flight
  wants_deploys : String → Flight

pub record Overview : Type 0 where
  pub loading : Bool
  pub error : Option String
  pub has_cluster : Option Bool
  pub cluster_info : Option ClusterInfo
  pub metrics : Option ClusterMetrics
  pub pods : List ClusterPod
  pub events : List ClusterEvent
  pub recent_deploys : List Deployment
  pub show_all_events : Bool
  pub flights : List Flight

-- `fetchData`, up to its first request
pub fetch_data : Option String → Overview → Overview
fetch_data team o = record o {
  loading = true;
  error = none;
  flights = o.flights ++ wants_clusters team ∷ [];
}

pub first_overview : Option String → Overview
unfolding fetch_data
first_overview team = fetch_data team (record {
  loading = true;
  error = none;
  has_cluster = none;
  cluster_info = none;
  metrics = none;
  pods = [];
  events = [];
  recent_deploys = [];
  show_all_events = false;
  flights = [];
})

abbrev pub ended : Overview → Overview
ended o = record o { loading = false }

abbrev pub goes_on : Flight → Overview → Overview
goes_on f o = record o { flights = o.flights ++ f ∷ [] }

abbrev pub has_some : {T : Type 0} → List T → Bool
has_some [] = false
has_some (x ∷ xs) = true

-- The list of the clusters, and what is asked next.
abbrev pub without_cluster : Option String → Overview → Overview
without_cluster none o = ended o
without_cluster (some team) o = goes_on (wants_deploys team) o

pub clusters_listed : Option String → List String → Overview → Overview
clusters_listed team clusters o =
    let seen : Overview = record o { has_cluster = some (has_some clusters) } in
    if has_some clusters then goes_on (wants_cluster team) seen else without_cluster team seen

abbrev pub with_cluster : Option String → Overview → Overview
with_cluster none o = ended (record o { recent_deploys = [] })
with_cluster (some team) o = goes_on (wants_deploys team) o

pub cluster_answered : Option String → ClusterAnswer → Overview → Overview
cluster_answered team a o = with_cluster team (record o {
  cluster_info = some a.info;
  metrics = some a.metrics;
  pods = a.pods;
  events = a.events;
})

-- The deployments, `none` where the request fails.
pub deploys_listed : Option (List Deployment) → Overview → Overview
deploys_listed none o = ended (record o { recent_deploys = [] })
deploys_listed (some ds) o = ended (record o { recent_deploys = ds })

pub not_fetched : String → Overview → Overview
not_fetched message o = ended (record o { error = some message })

-- An answer to the flight at a place, which is taken off the list.
pub data OverviewAnswer : Type 0 where
  clusters : List String → OverviewAnswer
  cluster : ClusterAnswer → OverviewAnswer
  deploys : Option (List Deployment) → OverviewAnswer
  failed : String → OverviewAnswer

abbrev pub landed : Flight → OverviewAnswer → Overview → Overview
landed (wants_clusters team) (clusters cs) o = clusters_listed team cs o
landed (wants_clusters team) (failed message) o = not_fetched message o
landed (wants_cluster team) (cluster a) o = cluster_answered team a o
landed (wants_cluster team) (failed message) o = not_fetched message o
landed (wants_deploys team) (deploys ds) o = deploys_listed ds o
landed f a o = goes_on f o

abbrev pub flight_at : ℕ → List Flight → Option Flight
flight_at n [] = none
flight_at zero (f ∷ fs) = some f
flight_at (suc n) (f ∷ fs) = flight_at n fs

abbrev pub without_flight : ℕ → List Flight → List Flight
without_flight n [] = []
without_flight zero (f ∷ fs) = fs
without_flight (suc n) (f ∷ fs) = f ∷ without_flight n fs

abbrev pub land_at : Option Flight → OverviewAnswer → Overview → Overview
land_at none a o = o
land_at (some f) a o = landed f a o

-- The page is opened anew for a team, or by its button; the events are listed in full or not; an answer
-- arrives, to any of the calls.
pub data OverviewEvent : Type 0 where
  fetch : Option String → OverviewEvent
  toggle_events : OverviewEvent
  arrive : ℕ → OverviewAnswer → OverviewEvent

pub overview_event : OverviewEvent → Overview → Overview
unfolding fetch_data clusters_listed cluster_answered deploys_listed not_fetched
overview_event (fetch team) o = fetch_data team o
overview_event toggle_events o = record o { show_all_events = not o.show_all_events }
overview_event (arrive n a) o =
    land_at (flight_at n o.flights) a (record o { flights = without_flight n o.flights })

abbrev pub overview_events : List OverviewEvent → Overview → Overview
overview_events [] o = o
overview_events (e ∷ es) o = overview_events es (overview_event e o)

-- The numbers of the page: the cluster's own, or else those counted.
abbrev pub node_count : Overview → ℕ
node_count o = elim o.metrics [
  | none ↦ elim o.cluster_info [ none ↦ 0 | some i ↦ length i.nodes ]
  | some m ↦ m.nodes
]

abbrev pub total_pods_of : Overview → ℕ
total_pods_of o = elim o.metrics [ none ↦ length o.pods | some m ↦ m.total_pods ]

abbrev pub running_pods_of : Overview → ℕ
running_pods_of o = elim o.metrics [
  | none ↦ length (filter (λ p. p.status == "Running") o.pods)
  | some m ↦ m.running_pods
]

abbrev pub pending_pods_of : Overview → ℕ
pending_pods_of o = elim o.metrics [
  | none ↦ length (filter (λ p. p.status == "Pending") o.pods)
  | some m ↦ m.pending_pods
]

abbrev failed_statuses : List String
failed_statuses = "CrashLoopBackOff" ∷ "ImagePullBackOff" ∷ "Failed" ∷ []

abbrev pub failed_pods_of : Overview → ℕ
failed_pods_of o = elim o.metrics [
  | none ↦ length (filter (λ p. includes failed_statuses p.status) o.pods)
  | some m ↦ m.failed_pods
]
