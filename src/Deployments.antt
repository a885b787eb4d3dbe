-- ===== src/Deployments.antt =====
-- ui/src/pages/DeploymentsPage.tsx on `Deployment` of ui/src/api/types.ts: the history of the deployments of
-- a team, its filters, its counts, and what can be done with a deployment.
pub mod Counted
pub mod Page
pub mod Statuses
mod Tests
use mozza.Prelude.{
  ℕ, zero, suc, ◌+◌, Bool, true, false, not, ◌&&◌, ◌||◌, Option, none, some, List, [], ◌∷◌, ◌++◌,
  String, codes, lower, contains, length, filter, ltb, ◌==◌, string_eq, if◌then◌else◌,
}
use mozza.Recipe.{given}

pub record Deployment : Type 0 where
  pub id : String
  pub recipe_id : String
  pub team_id : String
  pub target : String
  pub environment : String
  pub status : String
  pub started_by : String
  pub log : String
  pub started_at : String
  pub finished_at : Option String
  pub order_number : Option ℕ
  pub version : Option ℕ
  pub has_previous_state : Option Bool
  pub access_url : Option String

pub data EnvFilter : Type 0 where
  all_envs production staging development : EnvFilter

pub data StatusFilter : Type 0 where
  all_statuses success failed running rolled_back : StatusFilter

abbrev pub env_name : EnvFilter → String
env_name all_envs = "all"
env_name production = "production"
env_name staging = "staging"
env_name development = "development"

abbrev pub status_name : StatusFilter → String
status_name all_statuses = "all"
status_name success = "success"
status_name failed = "failed"
status_name running = "running"
status_name rolled_back = "rolled-back"

abbrev pub is_all_envs : EnvFilter → Bool
is_all_envs all_envs = true
is_all_envs production = false
is_all_envs staging = false
is_all_envs development = false

abbrev pub is_all_statuses : StatusFilter → Bool
is_all_statuses all_statuses = true
is_all_statuses success = false
is_all_statuses failed = false
is_all_statuses running = false
is_all_statuses rolled_back = false

abbrev pub search_matches : String → Deployment → Bool
search_matches search d =
    let q = lower search in
    contains (lower d.target) q
    || contains (lower d.status) q
    || contains (lower d.environment) q
    || contains (lower d.started_by) q

abbrev pub passes_filters : EnvFilter → StatusFilter → String → Deployment → Bool
passes_filters env status search d =
    if not (is_all_envs env) && not (d.environment == env_name env)
    then false
    else if not (is_all_statuses status) && not (d.status == status_name status)
    then false
    else if given search
    then search_matches search d
    else true

-- `filtered`
abbrev pub filtered_by : EnvFilter → StatusFilter → String → List Deployment → List Deployment
filtered_by env status search ds = filter (passes_filters env status search) ds

abbrev pub with_status_count : String → List Deployment → ℕ
with_status_count status ds = length (filter (λ d. d.status == status) ds)

abbrev pub successful : List Deployment → ℕ
successful ds = with_status_count "success" ds

-- `envCounts`
abbrev pub env_count : EnvFilter → List Deployment → ℕ
env_count all_envs ds = length ds
env_count production ds = length (filter (λ d. d.environment == "production") ds)
env_count staging ds = length (filter (λ d. d.environment == "staging") ds)
env_count development ds = length (filter (λ d. d.environment == "development") ds)

-- The buttons of a deployment.
pub data DeploymentAction : Type 0 where
  undo undo_disabled retry cancel promote delete view_logs : DeploymentAction

abbrev offer : Bool → DeploymentAction → List DeploymentAction
offer shown a = if shown then a ∷ [] else []

abbrev is_undoable : Deployment → Bool
is_undoable d = d.status == "succeeded" || d.status == "failed" || d.status == "partial"

abbrev has_previous : Deployment → Bool
has_previous d = elim d.has_previous_state [ none ↦ false | some b ↦ b ]

abbrev version_of : Deployment → ℕ
version_of d = elim d.version [ none ↦ 0 | some v ↦ v ]

abbrev pub actions : Deployment → List DeploymentAction
actions d =
    offer (is_undoable d && has_previous d && ltb 1 (version_of d)) undo
    ++ (offer (is_undoable d && not (has_previous d)) undo_disabled
        ++ (offer (d.status == "failed") retry
            ++ (offer (d.status == "running") cancel
                ++ (offer (d.status == "success" && not (d.environment == "production")) promote
                    ++ (delete ∷ offer (given d.log) view_logs)))))
