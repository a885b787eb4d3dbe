-- ===== src/Deployments/Tests.antt =====
-- Examples of the page of ui/src/pages/DeploymentsPage.tsx.
use mozza.Prelude.{◌≡◌, refl, true, none, some, List, [], ◌∷◌, String, length}
use mozza.Deployments.{
  Deployment, undo, delete, view_logs, filtered_by, env_count, staging, all_envs, all_statuses,
  success, rolled_back, actions, successful,
}
use mozza.Deployments.Counted.{length-filtered_by}
use mozza.Deployments.Statuses.{filtered_by-from_server}

abbrev a_deployment : String → String → Deployment
a_deployment name environment = record {
  id = name;
  recipe_id = "r1";
  team_id = "t1";
  target = "kubernetes";
  environment = environment;
  status = "succeeded";
  started_by = "Ada";
  log = "Step 1/5: Parsing recipe";
  started_at = "";
  finished_at = none;
  order_number = some 7;
  version = some 2;
  has_previous_state = some true;
  access_url = none;
}

abbrev two_deployments : List Deployment
two_deployments = a_deployment "d1" "production" ∷ a_deployment "d2" "staging" ∷ []

can_be_undone : actions (a_deployment "d1" "staging") ≡ undo ∷ delete ∷ view_logs ∷ []
can_be_undone = refl

length-filtered_by_example :
    length (filtered_by staging all_statuses "" two_deployments) ≡ env_count staging two_deployments
length-filtered_by_example = length-filtered_by staging two_deployments

filtered_by-from_server_example :
    (successful two_deployments ≡ 0)
    × (filtered_by all_envs success "ada" two_deployments ≡ [])
    × (filtered_by all_envs rolled_back "ada" two_deployments ≡ [])
filtered_by-from_server_example = filtered_by-from_server two_deployments all_envs "ada" refl
