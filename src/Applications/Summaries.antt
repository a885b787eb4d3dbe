-- ===== src/Applications/Summaries.antt =====
-- The status of an application: from its pods, or, where it has none, from what the deployment says.
use Prim.Native.Nat.{◌≤◌}
use mozza.Prelude.{
  ℕ, ◌≡◌, refl, Bool, true, not, some, List, [], ◌∷◌, length, filter, all, any, arith, ltb, ◌==◌,
  nat_eq, if◌then◌else◌,
}
use mozza.Applications.{
  ClusterDeployment, AppStatus, healthy, degraded, failing, derive_status, is_ready, pods_of, part,
  build_app_summary,
}
use mozza.Applications.Ready.{fraction_text, split_slash-fraction, parse_int-decimal}
use mozza.Monitoring.{ClusterPod}

module _ {ℓ} {A : Type ℓ} (p : A → Bool) where
  length-filter : (xs : List A) → length (filter p xs) ≤ length xs
  length-filter [] = omega arith
  length-filter (x ∷ xs) = ground (arith, length-filter xs)

  filter-all : (xs : List A) → (length (filter p xs) == length xs) ≡ all p xs
  filter-all [] = refl
  filter-all (x ∷ xs) = ground (arith, filter-all xs, length-filter xs)

  filter-any : (xs : List A) → (length (filter p xs) == 0) ≡ not (any p xs)
  filter-any [] = refl
  filter-any (x ∷ xs) = ground (arith, filter-any xs)

-- What the readiness of the pods says.
abbrev pub status_of_pods : List ClusterPod → AppStatus
status_of_pods ps =
    if all is_ready ps then healthy else if any is_ready ps then degraded else failing

derive_status-filter :
    (ps : List ClusterPod)
    → ltb 0 (length ps) ≡ true
    → derive_status (some (length (filter is_ready ps))) (some (length ps)) ≡ status_of_pods ps
unfolding derive_status
derive_status-filter ps h = ground (arith, filter-all is_ready ps, filter-any is_ready ps)

-- An application that has pods is healthy exactly if all of them are ready, and failing exactly if
-- none is; otherwise it is degraded.
pub status-pods :
    (pods : List ClusterPod) (dep : ClusterDeployment)
    → ltb 0 (length (pods_of dep pods)) ≡ true
    → (build_app_summary pods dep).status ≡ status_of_pods (pods_of dep pods)
unfolding build_app_summary
status-pods pods dep h = rw h (derive_status-filter (pods_of dep pods) h)

-- What a deployment says of itself.
abbrev pub status_of_counts : ℕ → ℕ → AppStatus
status_of_counts a b =
    if b == 0 then failing else if a == b then healthy else if a == 0 then failing else degraded

part_ready : (a b : ℕ) → part 0 (fraction_text a b) ≡ some a
part_ready a b = rw (part, split_slash-fraction a b, parse_int-decimal a) refl

part_total : (a b : ℕ) → part 1 (fraction_text a b) ≡ some b
part_total a b = rw (part, split_slash-fraction a b, parse_int-decimal b) refl

-- An application without pods has the status that the counts of its deployment give.
pub status-no_pods :
    (pods : List ClusterPod) (dep : ClusterDeployment) (a b : ℕ)
    → pods_of dep pods ≡ []
    → dep.ready ≡ fraction_text a b
    → (build_app_summary pods dep).status ≡ status_of_counts a b
unfolding build_app_summary derive_status
status-no_pods pods dep a b h e = rw (h, e, part_ready a b, part_total a b) refl
