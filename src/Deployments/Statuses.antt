-- ===== src/Deployments/Statuses.antt =====
-- ui/src/pages/DeploymentsPage.tsx on the statuses that the server and the operator write for the
-- deployments that are listed: internal/store/deployment.go, internal/server/deploy_handlers.go and
-- template_handlers.go, and internal/cli/operator.go.
use mozza.Prelude.{
  ◌≡◌, refl, sym, ap, ◌∙◌, Bool, true, false, List, [], ◌∷◌, String, arith, length, filter, all,
  any, includes, string_eq, ◌==◌, eq_iff, Bool-cases, inl, inr,
}
use mozza.Deployments.{
  Deployment, EnvFilter, success, rolled_back, passes_filters, filtered_by, successful,
  DeploymentAction, actions, promote,
}

abbrev pub server_statuses : List String
server_statuses = "pending" ∷ "running" ∷ "succeeded" ∷ "partial" ∷ "failed" ∷ "rolled_back" ∷ []

abbrev pub from_server : Deployment → Bool
from_server d = includes server_statuses d.status

not_of_server :
    (s t : String)
    → includes server_statuses s ≡ true
    → includes server_statuses t ≡ false
    → (s == t) ≡ false
not_of_server s t h k = elim (Bool-cases (s == t)) [
  | inl y ↦
      let e : s ≡ t = ground (arith, eq_iff s t, y) in
      y ∙ sym h ∙ ap (λ x. includes server_statuses x) e ∙ k
  | inr n ↦ n
]

filter_nothing :
    {T : Type 0}
    → (f p : T → Bool) (xs : List T) → all f xs ≡ true
    → ((x : T) → f x ≡ true → p x ≡ false)
    → filter p xs ≡ []
filter_nothing f p [] h k = refl
filter_nothing f p (x ∷ xs) h k = ground (arith, k x, filter_nothing f p xs)

not_shown :
    (env : EnvFilter) (q : String) (d : Deployment)
    → (d.status == "success") ≡ false
    → passes_filters env success q d ≡ false
not_shown env q d h = ground arith

not_shown_rolled_back :
    (env : EnvFilter) (q : String) (d : Deployment)
    → (d.status == "rolled-back") ≡ false
    → passes_filters env rolled_back q d ≡ false
not_shown_rolled_back env q d h = ground arith

-- Where all deployments have a status that the server or the operator writes, none is counted as successful,
-- whatever came of it, and none is shown where the status "success" or "rolled-back" is chosen.
pub filtered_by-from_server :
    (ds : List Deployment) (env : EnvFilter) (q : String)
    → all from_server ds ≡ true
    → (successful ds ≡ 0)
      × (filtered_by env success q ds ≡ [])
      × (filtered_by env rolled_back q ds ≡ [])
filtered_by-from_server ds env q h = (
  ap length (
      filter_nothing from_server (λ d. d.status == "success") ds h
        (λ d k. not_of_server d.status "success" k refl)),
  filter_nothing from_server (passes_filters env success q) ds h
      (λ d k. not_shown env q d (not_of_server d.status "success" k refl)),
  filter_nothing from_server (passes_filters env rolled_back q) ds h
      (λ d k. not_shown_rolled_back env q d (not_of_server d.status "rolled-back" k refl)),
)

abbrev pub is_promote : DeploymentAction → Bool
is_promote promote = true
is_promote _ = false

no_promote : (d : Deployment) → (d.status == "success") ≡ false → any is_promote (actions d) ≡ false
no_promote d h = ground arith

-- A deployment with a status that the server or the operator writes cannot be promoted on the page.
pub actions-from_server :
    (d : Deployment) → from_server d ≡ true → any is_promote (actions d) ≡ false
actions-from_server d h = no_promote d (not_of_server d.status "success" h refl)
