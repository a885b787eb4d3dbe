-- ===== src/Deployments/Page.antt =====
-- ui/src/pages/DeploymentsPage.tsx: the state of the page, its requests, and what the user does.
mod Tests
use mozza.Prelude.{
  ℕ, zero, suc, Bool, true, false, not, ◌&&◌, ◌||◌, Option, none, some, List, [], ◌∷◌, ◌++◌, String,
  ◌==◌, string_eq, if◌then◌else◌,
}
use mozza.Deployments.{
  Deployment, EnvFilter, all_envs, StatusFilter, all_statuses, filtered_by, DeploymentAction, undo,
  undo_disabled, retry, cancel, promote, delete, view_logs,
}

-- What is asked of the server; for the last two, with the team that was active then, whose list is fetched
-- once they are done.
pub data Request : Type 0 where
  list_deployments : String → Request
  rollback_deployment delete_deployment : Option String → String → Request

-- The state of the page, the team that is active, the requests whose answers are awaited, and the page that
-- the user was sent to, if any.
pub record DeploymentsPage : Type 0 where
  pub active_team : Option String
  pub deployments : List Deployment
  pub loading : Bool
  pub error : String
  pub env_filter : EnvFilter
  pub status_filter : StatusFilter
  pub search : String
  pub expanded_id : Option String
  pub awaited : List Request
  pub navigated : Option String

-- `fetchDeployments` for a team, up to its request
pub fetch_deployments : Option String → DeploymentsPage → DeploymentsPage
fetch_deployments active_team p = elim active_team [
  | none ↦ record p { deployments = []; loading = false }
  | some team ↦ record p {
    loading = true;
    error = "";
    awaited = p.awaited ++ list_deployments team ∷ [];
  }
]

-- The page when it opens, and when the active team changes.
pub set_team : Option String → DeploymentsPage → DeploymentsPage
unfolding fetch_deployments
set_team team p = fetch_deployments team (record p { active_team = team })

pub first_page : Option String → DeploymentsPage
unfolding fetch_deployments
first_page team = fetch_deployments team (record {
  active_team = team;
  deployments = [];
  loading = true;
  error = "";
  env_filter = all_envs;
  status_filter = all_statuses;
  search = "";
  expanded_id = none;
  awaited = [];
  navigated = none;
})

abbrev request_at : ℕ → List Request → Option Request
request_at n [] = none
request_at zero (r ∷ rs) = some r
request_at (suc n) (r ∷ rs) = request_at n rs

abbrev without_request : ℕ → List Request → List Request
without_request n [] = []
without_request zero (r ∷ rs) = rs
without_request (suc n) (r ∷ rs) = r ∷ without_request n rs

-- The answer to a request for the list, `none` where it fails.
pub listed : Option (List Deployment) → DeploymentsPage → DeploymentsPage
listed none p = record p { error = "Failed to load deployments"; loading = false }
listed (some ds) p = record p { deployments = ds; loading = false }

abbrev is_expanded : Option String → String → Bool
is_expanded none id = false
is_expanded (some e) id = e == id

pub toggle_expanded : String → DeploymentsPage → DeploymentsPage
toggle_expanded id p = record p {
  expanded_id = if is_expanded p.expanded_id id then none else some id;
}

-- A click on a button, confirmed where it asks.
pub act : DeploymentAction → Bool → Deployment → DeploymentsPage → DeploymentsPage
unfolding toggle_expanded
act undo confirmed d p =
    if confirmed
    then record p { awaited = p.awaited ++ rollback_deployment p.active_team d.id ∷ [] }
    else p
act cancel confirmed d p =
    if confirmed
    then record p { awaited = p.awaited ++ delete_deployment p.active_team d.id ∷ [] }
    else p
act delete confirmed d p =
    if confirmed
    then record p { awaited = p.awaited ++ delete_deployment p.active_team d.id ∷ [] }
    else p
act retry confirmed d p = record p { navigated = some "/app/deploy" }
act promote confirmed d p = record p { navigated = some "/app/deploy" }
act view_logs confirmed d p = toggle_expanded d.id p
act undo_disabled confirmed d p = p

-- `Clear filters`
pub clear_filters : DeploymentsPage → DeploymentsPage
clear_filters p = record p { env_filter = all_envs; status_filter = all_statuses; search = "" }

abbrev pub filtered : DeploymentsPage → List Deployment
filtered p = filtered_by p.env_filter p.status_filter p.search p.deployments

-- What the user does, the changes of the team, and the answers: to a request for a list, and to another.
pub data PageEvent : Type 0 where
  switch_team : Option String → PageEvent
  refresh clear : PageEvent
  pick_env : EnvFilter → PageEvent
  pick_status : StatusFilter → PageEvent
  type_search toggle : String → PageEvent
  press : DeploymentAction → Bool → Deployment → PageEvent
  list_answer : ℕ → Option (List Deployment) → PageEvent
  done_answer : ℕ → Bool → PageEvent

abbrev answer_list : Option Request → Option (List Deployment) → DeploymentsPage → DeploymentsPage
answer_list (some (list_deployments team)) ds p = listed ds p
answer_list _ ds p = p

abbrev answer_done : Option Request → Bool → DeploymentsPage → DeploymentsPage
answer_done (some (rollback_deployment team id)) ok p = if ok then fetch_deployments team p else p
answer_done (some (delete_deployment team id)) ok p = if ok then fetch_deployments team p else p
answer_done _ ok p = p

abbrev has_team : Option String → Bool
has_team none = false
has_team (some t) = true

pub page_event : PageEvent → DeploymentsPage → DeploymentsPage
unfolding fetch_deployments set_team listed toggle_expanded act clear_filters
page_event (switch_team t) p = set_team t p
page_event refresh p =
    if p.loading || not (has_team p.active_team) then p else fetch_deployments p.active_team p
page_event clear p = clear_filters p
page_event (pick_env f) p = record p { env_filter = f }
page_event (pick_status f) p = record p { status_filter = f }
page_event (type_search s) p = record p { search = s }
page_event (toggle id) p = toggle_expanded id p
page_event (press a confirmed d) p = act a confirmed d p
page_event (list_answer n ds) p =
    answer_list (request_at n p.awaited) ds (record p { awaited = without_request n p.awaited })
page_event (done_answer n ok) p =
    answer_done (request_at n p.awaited) ok (record p { awaited = without_request n p.awaited })

abbrev pub page_events : List PageEvent → DeploymentsPage → DeploymentsPage
page_events [] p = p
page_events (e ∷ es) p = page_events es (page_event e p)
