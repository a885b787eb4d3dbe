-- ===== src/Deployments/Page/Tests.antt =====
-- Examples of the events of the page of ui/src/pages/DeploymentsPage.tsx.
use mozza.Prelude.{◌≡◌, refl, true, none, some, List, [], ◌∷◌, String}
use mozza.Deployments.{Deployment, undo}
use mozza.Deployments.Page.{
  first_page, PageEvent, page_event, page_events, switch_team, list_answer, press, done_answer,
  filtered, fetch_deployments, set_team, listed, act,
}

abbrev a_deployment : String → String → Deployment
a_deployment name environment = record {
  id = name;
  recipe_id = "r1";
  team_id = "t1";
  target = "kubernetes";
  environment = environment;
  status = "succeeded";
  started_by = "Ada";
  log = "Step 1/5: Parsing recipe";
  started_at = "";
  finished_at = none;
  order_number = some 7;
  version = some 2;
  has_previous_state = some true;
  access_url = none;
}

abbrev two_deployments : List Deployment
two_deployments = a_deployment "d1" "production" ∷ a_deployment "d2" "staging" ∷ []

-- The list of the team that was active before arrives last.
abbrev late_list : List PageEvent
late_list =
    switch_team (some "t2") ∷ list_answer 1 (some []) ∷ list_answer 0 (some two_deployments) ∷ []

late_list_shown :
    ((page_events late_list (first_page (some "t1"))).active_team ≡ some "t2")
    × (filtered (page_events late_list (first_page (some "t1"))) ≡ two_deployments)
unfolding first_page page_event fetch_deployments set_team listed
late_list_shown = (refl, refl)

rolled_back_listed :
    (page_events
      (list_answer 0 (some two_deployments)
        ∷ press undo true (a_deployment "d1" "production")
        ∷ done_answer 0 true
        ∷ list_answer 0 none
        ∷ [])
      (first_page (some "t1"))).error
    ≡ "Failed to load deployments"
unfolding first_page page_event fetch_deployments set_team listed act
rolled_back_listed = refl
