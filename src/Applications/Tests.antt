-- ===== src/Applications/Tests.antt =====
-- An application of two pods, and the theorems about its status at it.
use mozza.Prelude.{◌≡◌, refl, some, List, [], ◌∷◌, String, map}
use mozza.Monitoring.{ClusterPod}
use mozza.Applications.{
  ClusterDeployment, degraded, parse_ready_fraction, pods_of, build_app_summary,
  build_app_summaries, derive_status, parse_int,
}
use mozza.Applications.Ready.{fraction_text, parse_ready_fraction_lem}
use mozza.Applications.Summaries.{status_of_pods, status-pods, status_of_counts, status-no_pods}

abbrev pod : String → ClusterPod
pod ready = record {
  name = "shop-1";
  namespace = "prod";
  status = "Running";
  ready = ready;
  restarts = 0;
  app = "shop";
}

abbrev pods : List ClusterPod
pods = pod "1/1" ∷ pod "0/1" ∷ []

abbrev shop : ClusterDeployment
shop = record {
  name = "shop";
  namespace = "prod";
  ready = fraction_text 3 12;
  age = "2d";
  image = "";
}

statuses : map (λ s. s.status) (build_app_summaries (shop ∷ []) pods) ≡ degraded ∷ []
unfolding build_app_summaries derive_status parse_int
statuses = refl

parse_ready_fraction_lem_example :
    parse_ready_fraction (fraction_text 3 12) ≡ record { ready = some 3; total = some 12 }
parse_ready_fraction_lem_example = parse_ready_fraction_lem 3 12

status-pods_example : (build_app_summary pods shop).status ≡ status_of_pods (pods_of shop pods)
status-pods_example = status-pods pods shop refl

status-no_pods_example : (build_app_summary [] shop).status ≡ status_of_counts 3 12
status-no_pods_example = status-no_pods [] shop 3 12 refl refl
