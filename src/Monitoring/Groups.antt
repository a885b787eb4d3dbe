-- ===== src/Monitoring/Groups.antt =====
-- The groups of MonitoringPage.tsx, and the order of their summaries.
use mathlib.Core.Path.{fun_ext}
use mathlib.Core.List.{append-nil, append_assoc}
use mozza.Prelude.{
  ℕ, ◌+◌, ◌≡◌, refl, sym, ap, ◌∙◌, ◌&&◌, Bool, true, List, [], ◌∷◌, ◌++◌, map, String, arith,
  length, filter, leb, ◌==◌, nat_eq, string_eq, if◌then◌else◌, eq_iff, Bool-cases, inl, inr,
}
use mozza.Monitoring.{
  ClusterPod, Groups, group_key, push, group_from, AppSummary, sum, summary, insert, sort,
  group_pods_by_app,
}

sum-append {ℓ} : {A : Type ℓ} (f : A → ℕ) (xs ys : List A) → sum f (xs ++ ys) ≡ sum f xs + sum f ys
sum-append f [] ys = omega arith
sum-append f (x ∷ xs) ys = omega (arith, sum-append f xs ys)

-- The pods that stand under a key.
abbrev pub pods_at : String → Groups → List ClusterPod
pods_at k [] = []
pods_at k (g ∷ gs) = if g.0 == k then g.1 else pods_at k gs

pods_at-push :
    (k key : String) (pod : ClusterPod) (gs : Groups)
    → pods_at k (push key pod gs) ≡ (if key == k then pods_at k gs ++ pod ∷ [] else pods_at k gs)
pods_at-push k key pod [] = ground arith
pods_at-push k key pod ((k2, pods) ∷ gs) =
    ground (arith, pods_at-push k key pod gs, eq_iff k2 key, eq_iff k2 k, eq_iff key k)

pods_at-group_from :
    (k : String) (pods : List ClusterPod) (gs : Groups)
    → pods_at k (group_from pods gs) ≡ pods_at k gs ++ filter (λ p. group_key p == k) pods
unfolding group_from
pods_at-group_from k [] gs = sym (append-nil (pods_at k gs))
pods_at-group_from k (pod ∷ pods) gs = elim (Bool-cases (group_key pod == k)) [
  | inl here ↦
      pods_at-group_from k pods (push (group_key pod) pod gs)
      ∙ rw (pods_at-push k (group_key pod) pod gs, here)
          (append_assoc (pods_at k gs) (pod ∷ []) (filter (λ p. group_key p == k) pods))
  | inr other ↦
      pods_at-group_from k pods (push (group_key pod) pod gs)
      ∙ rw (pods_at-push k (group_key pod) pod gs, other) refl
]

-- The sum of a count over the groups.
sum-push :
    (f : ClusterPod → ℕ) (key : String) (pod : ClusterPod) (gs : Groups)
    → sum (λ g. sum f g.1) (push key pod gs) ≡ f pod + sum (λ g. sum f g.1) gs
sum-push f key pod [] = ground arith
sum-push f key pod ((k2, pods) ∷ gs) =
    ground (arith, sum-append f pods (pod ∷ []), sum-push f key pod gs)

sum-insert :
    (f : AppSummary → ℕ) (a : AppSummary) (bs : List AppSummary)
    → sum f (insert a bs) ≡ f a + sum f bs
sum-insert f a [] = refl
sum-insert f a (b ∷ bs) = ground (arith, sum-insert f a bs)

sum-sort : (f : AppSummary → ℕ) (bs : List AppSummary) → sum f (sort bs) ≡ sum f bs
sum-sort f [] = refl
sum-sort f (b ∷ bs) = sum-insert f b (sort bs) ∙ ap (λ (n : ℕ). f b + n) (sum-sort f bs)

sum-group_from :
    (f : ClusterPod → ℕ) (pods : List ClusterPod) (gs : Groups)
    → sum (λ g. sum f g.1) (group_from pods gs) ≡ sum (λ g. sum f g.1) gs + sum f pods
unfolding group_from
sum-group_from f [] gs = omega arith
sum-group_from f (pod ∷ pods) gs =
    omega (
      arith,
      sum-group_from f pods (push (group_key pod) pod gs),
      sum-push f (group_key pod) pod gs,
    )

sum-map {ℓ κ} :
    {A : Type ℓ} {B : Type κ} (f : B → ℕ) (g : A → B) (xs : List A)
    → sum f (map g xs) ≡ sum (λ x. f (g x)) xs
sum-map f g [] = refl
sum-map f g (x ∷ xs) = omega (arith, sum-map f g xs)

sum_one {ℓ} : {A : Type ℓ} (xs : List A) → sum (λ x. 1) xs ≡ length xs
sum_one [] = refl
sum_one (x ∷ xs) = omega (arith, sum_one xs)

-- A count of the pods, summed up over the summaries.
sum-group_pods_by_app :
    (f : ClusterPod → ℕ) (count : AppSummary → ℕ) (pods : List ClusterPod)
    → ((g : String × List ClusterPod) → count (summary g) ≡ sum f g.1)
    → sum count (group_pods_by_app pods) ≡ sum f pods
unfolding group_pods_by_app
sum-group_pods_by_app f count pods same =
    sum-sort count (map summary (group_from pods []))
    ∙ (sum-map count summary (group_from pods [])
        ∙ (ap (λ h. sum h (group_from pods [])) (fun_ext same)
            ∙ (sum-group_from f pods [] ∙ omega arith)))

-- No pod and no restart is lost or counted twice: the summaries have as many pods, and as many
-- restarts, as there are.
pub group_pods_total :
    (pods : List ClusterPod)
    → (sum (λ a. a.total_count) (group_pods_by_app pods) ≡ length pods)
      × (sum (λ a. a.restart_count) (group_pods_by_app pods) ≡ sum (λ p. p.restarts) pods)
unfolding summary
group_pods_total pods = (
  sum-group_pods_by_app (λ p. 1) (λ a. a.total_count) pods (λ g. sym (sum_one g.1)) ∙ sum_one pods,
  sum-group_pods_by_app (λ p. p.restarts) (λ a. a.restart_count) pods (λ g. refl),
)

-- The pods of a group are those of its key, in their order.
pub pods_at-group :
    (pods : List ClusterPod) (k : String)
    → pods_at k (group_from pods []) ≡ filter (λ p. group_key p == k) pods
pods_at-group pods k = pods_at-group_from k pods []

-- The first has as many pods as any.
abbrev pub descending : List AppSummary → Bool
descending [] = true
descending (a ∷ []) = true
descending (a ∷ b ∷ cs) = leb b.total_count a.total_count && descending (b ∷ cs)

descending-insert :
    (a : AppSummary) (bs : List AppSummary) → descending bs ≡ true → descending (insert a bs) ≡ true
descending-insert a [] h = refl
descending-insert a (b ∷ []) h = ground arith
descending-insert a (b ∷ c ∷ cs) h = ground (arith, descending-insert a (c ∷ cs))

descending-sort : (bs : List AppSummary) → descending (sort bs) ≡ true
descending-sort [] = refl
descending-sort (b ∷ bs) = descending-insert b (sort bs) (descending-sort bs)

-- The summaries with more pods come first.
pub group_pods_by_app-descending :
    (pods : List ClusterPod) → descending (group_pods_by_app pods) ≡ true
unfolding group_pods_by_app
group_pods_by_app-descending pods = descending-sort (map summary (group_from pods []))
