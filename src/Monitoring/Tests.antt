-- ===== src/Monitoring/Tests.antt =====
-- The pods of two applications, and the theorems of MonitoringPage.tsx at them.
use mozza.Prelude.{
  ℕ, ◌≡◌, refl, Bool, true, false, List, [], ◌∷◌, String, length, filter, ◌==◌, string_eq, map,
}
use mozza.Monitoring.{ClusterPod, group_key, group_pods_by_app, sum}
use mozza.Monitoring.Groups.{group_pods_total, descending, group_pods_by_app-descending}

abbrev pod : String → String → ℕ → ClusterPod
pod name app restarts = record {
  name = name;
  namespace = "prod";
  status = "Running";
  ready = "1/1";
  restarts = restarts;
  app = app;
}

abbrev pods : List ClusterPod
pods = pod "shop-5d8f9c7b6d-x2x4z" "" 1 ∷ pod "db-0" "db" 0 ∷ pod "any" "shop" 2 ∷ []

names_of_pods :
    map {B = String × ℕ × ℕ}
      (λ a. (a.name, a.total_count, a.restart_count))
      (group_pods_by_app pods)
    ≡ ("shop", 2, 3) ∷ ("db", 1, 0) ∷ []
unfolding group_pods_by_app group_key mozza.Prelude.template
names_of_pods = refl

group_pods_total_example :
    (sum (λ a. a.total_count) (group_pods_by_app pods) ≡ length pods)
    × (sum (λ a. a.restart_count) (group_pods_by_app pods) ≡ sum (λ p. p.restarts) pods)
group_pods_total_example = group_pods_total pods

group_pods_by_app-descending_example : descending (group_pods_by_app pods) ≡ true
group_pods_by_app-descending_example = group_pods_by_app-descending pods
