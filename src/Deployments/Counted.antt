-- ===== src/Deployments/Counted.antt =====
-- The counts and the filters of ui/src/pages/DeploymentsPage.tsx.
use mozza.Prelude.{
  ◌+◌, ◌≤◌, ◌≡◌, refl, ap, ◌∙◌, Bool, true, false, not, ◌&&◌, List, [], ◌∷◌, String, arith, length,
  filter, string_eq, ◌==◌, eq_iff, if◌then◌else◌,
}
use mozza.Deployments.{
  Deployment, EnvFilter, all_envs, production, staging, development, all_statuses, env_count,
  passes_filters, filtered_by,
}

filter_same :
    (p q : Deployment → Bool) (ds : List Deployment)
    → ((d : Deployment) → p d ≡ q d)
    → filter p ds ≡ filter q ds
filter_same p q [] h = refl
filter_same p q (d ∷ ds) h = ground (arith, h d, filter_same p q ds h)

filter_none : (ds : List Deployment) → filter (passes_filters all_envs all_statuses "") ds ≡ ds
filter_none [] = refl
filter_none (d ∷ ds) = ap (λ r. d ∷ r) (filter_none ds)

env_shown :
    (b : Bool)
    → (if not false && not b then false else if not true && false then false else true) ≡ b
env_shown true = refl
env_shown false = refl

-- The number on the button of an environment is the number of the deployments that are shown once it is
-- pressed, where no status and no search is chosen.
pub length-filtered_by :
    (f : EnvFilter) (ds : List Deployment)
    → length (filtered_by f all_statuses "" ds) ≡ env_count f ds
length-filtered_by all_envs ds = ap length (filter_none ds)
length-filtered_by production ds = ap length (
    filter_same (passes_filters production all_statuses "") (λ d. d.environment == "production") ds
      (λ d. env_shown (d.environment == "production")))
length-filtered_by staging ds = ap length (
    filter_same (passes_filters staging all_statuses "") (λ d. d.environment == "staging") ds
      (λ d. env_shown (d.environment == "staging")))
length-filtered_by development ds = ap length (
    filter_same (passes_filters development all_statuses "") (λ d. d.environment == "development")
      ds (λ d. env_shown (d.environment == "development")))

other_text : (e a b : String) → (e == a) ≡ true → (a == b) ≡ false → (e == b) ≡ false
other_text e a b h k = ap (λ x. x == b) (ground (arith, eq_iff e a, h)) ∙ k

-- The deployments counted for production, for staging and for development are together at most all of them.
pub env_count_bound :
    (ds : List Deployment)
    → env_count production ds + env_count staging ds + env_count development ds
      ≤ env_count all_envs ds
env_count_bound [] = omega arith
env_count_bound (d ∷ ds) = ground (
  arith,
  env_count_bound ds,
  other_text d.environment "production" "staging",
  other_text d.environment "production" "development",
  other_text d.environment "staging" "development",
)
