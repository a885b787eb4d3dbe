-- ===== src/Overview/Tests.antt =====
-- Examples of the page of ui/src/pages/OverviewPage.tsx.
use mozza.Prelude.{◌≡◌, refl, true, not, ◌||◌, none, some, List, [], ◌∷◌}
use mozza.Deployments.{Deployment}
use mozza.Overview.{
  first_overview, OverviewEvent, fetch, arrive, clusters, cluster, deploys, overview_event,
  overview_events, ClusterAnswer, has_some, running_pods_of, fetch_data, clusters_listed,
  cluster_answered, deploys_listed,
}
use mozza.Overview.Settled.{is_known, overview_events-IsSettled}

abbrev a_deployment : Deployment
a_deployment = record {
  id = "d1";
  recipe_id = "r1";
  team_id = "t1";
  target = "local";
  environment = "development";
  status = "failed";
  started_by = "Ada";
  log = "";
  started_at = "";
  finished_at = none;
  order_number = none;
  version = none;
  has_previous_state = none;
  access_url = none;
}

abbrev an_answer : ClusterAnswer
an_answer = record {
  info = record { connected = true; nodes = "n1" ∷ [] };
  metrics = record {
    nodes = 1;
    total_pods = 3;
    running_pods = 2;
    pending_pods = 0;
    failed_pods = 1;
    uptime = "3d";
  };
  pods = [];
  events = [];
}

-- A team whose cluster answers, and then no team, with no cluster left.
abbrev team_left : List OverviewEvent
team_left =
    arrive 0 (clusters ("c1" ∷ []))
    ∷ arrive 0 (cluster an_answer)
    ∷ arrive 0 (deploys (some (a_deployment ∷ [])))
    ∷ fetch none
    ∷ arrive 0 (clusters [])
    ∷ []

deployments_stay :
    (overview_events team_left (first_overview (some "t1"))).recent_deploys ≡ a_deployment ∷ []
unfolding first_overview overview_event fetch_data clusters_listed cluster_answered deploys_listed
deployments_stay = refl

running_shown : running_pods_of (overview_events team_left (first_overview (some "t1"))) ≡ 2
unfolding first_overview overview_event fetch_data clusters_listed cluster_answered deploys_listed
running_shown = refl

overview_events-IsSettled_example :
    let o = overview_events team_left (first_overview (some "t1")) in
    ((not o.loading || has_some o.flights) ≡ true)
    × ((is_known o.metrics || not (has_some o.pods)) ≡ true)
    × ((is_known o.metrics || not (is_known o.cluster_info)) ≡ true)
overview_events-IsSettled_example = overview_events-IsSettled (some "t1") team_left
