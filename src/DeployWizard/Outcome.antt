-- ===== src/DeployWizard/Outcome.antt =====
-- ui/src/components/deploy/DeployWizard.tsx: what an order that is deployed comes to, with the statuses that
-- ui/src/components/deploy/DeployProgress.tsx reports of it.
use mathlib.Core.Path.{subst}
use mozza.Prelude.{
  ◌↔◌, ◌⊎◌, ◌≢◌, eq_iff, ◌≡◌, refl, sym, ◌∙◌, Bool, [], ◌∷◌, ◌++◌, none, some, List, map, String,
  ◌||◌, arith, string_eq, ◌==◌, if◌then◌else◌, false, true,
}
use mozza.DeployProgress.{after_events, first_progress}
use mozza.DeployProgress.Replay.{replayed, first_progress-replayed}
use mozza.DeployWizard.{
  DeployWizard, DeployEvent, complete, preview_answer, confirm, deploy_answer, deploy_failure,
  again, edit, handle_wizard_complete, handle_confirm_deploy, previewed, execute_deploy, deployed,
  cooking, served, burned, View, order_wizard, deploy_progress, deploy_message, not_deployed, view,
  done, perform, perform_all,
}
use mozza.DeployWizard.Answers.{status_after, done_shown, done_sent}

-- An order that is previewed, confirmed and deployed.
abbrev pub deployed_order : {P D : Type 0} → String → String → P → D → List (DeployEvent P D)
deployed_order name source p d =
    complete name source ∷ preview_answer 0 (some p) ∷ confirm ∷ deploy_answer 0 d ∷ []

abbrev IsOrdered : {P D : Type 0} → D → String → DeployWizard P D → DeployWizard P D → Type 0
IsOrdered d source w u =
    (view u ≡ deploy_progress d cooking) × (u.deploys_sent ≡ w.deploys_sent ++ source ∷ [])

deployed_order-IsOrdered :
    {P D : Type 0}
    → (name source : String) (p : P) (d : D) (w : DeployWizard P D) → view w ≡ order_wizard
    → w.previews_awaited ≡ []
    → w.deploys_awaited ≡ []
    → IsOrdered d source w (perform_all (deployed_order name source p d) w)
unfolding perform view handle_wizard_complete handle_confirm_deploy previewed execute_deploy
    deployed
deployed_order-IsOrdered name source p d w h e k = (rw (h, e, k) refl, rw (h, e, k) refl)

-- What the page is told of a deployment whose stream is opened, read to its end, and read once more.
abbrev pub completions : Bool → List String → String → List String
completions use_pizza_metaphor messages status =
    (after_events (replayed messages status)
      (after_events (replayed messages status) (first_progress use_pizza_metaphor))).completed

is_served :
    (s : String)
    → ((s == "succeeded" || s == "success") ≡ true) ↔ ((s ≡ "succeeded") ⊎ (s ≡ "success"))
is_served s = ground (arith, eq_iff s "succeeded", eq_iff s "success")

is_burned :
    (s : String)
    → ((s == "succeeded" || s == "success") ≡ false) ↔ ((s ≢ "succeeded") × (s ≢ "success"))
is_burned s = ground (arith, eq_iff s "succeeded", eq_iff s "success")

-- The outcome is shown as served where a Boolean test holds of the status, and else as burned.
served_iff :
    {P D : Type 0}
    → (v : View P D) (d : D) (b : Bool) → v ≡ deploy_progress d (if b then served else burned)
    → ((v ≡ deploy_progress d served) ↔ (b ≡ true)) × ((v ≡ deploy_progress d burned) ↔ (b ≡ false))
served_iff v d true h = ground arith
served_iff v d false h = ground arith

both_iff {ℓ ℓ' ℓ''} : {A : Type ℓ} {B : Type ℓ'} {C : Type ℓ''} → (A ↔ B) → (B ↔ C) → A ↔ C
both_iff (f, g) (h, k) = (λ a. h (f a), λ c. g (k c))

-- What the page shows in the end, and what has been sent.
abbrev HasOutcome :
    {P D : Type 0} → D → String → String → DeployWizard P D → DeployWizard P D → Type 0
HasOutcome d source s w r =
    ((view r ≡ deploy_progress d served) ↔ ((s ≡ "succeeded") ⊎ (s ≡ "success")))
    × ((view r ≡ deploy_progress d burned) ↔ ((s ≢ "succeeded") × (s ≢ "success")))
    × (r.deploys_sent ≡ w.deploys_sent ++ source ∷ [])

status_after-HasOutcome :
    {P D : Type 0}
    → (d : D) (source s : String) (w r : DeployWizard P D)
    → view r ≡ deploy_progress d (status_after s)
    → r.deploys_sent ≡ w.deploys_sent ++ source ∷ []
    → HasOutcome d source s w r
status_after-HasOutcome d source s w r h e =
    let (a, b) = served_iff (view r) d (s == "succeeded" || s == "success") h in
    (both_iff a (is_served s), both_iff b (is_burned s), e)

done_twice-HasOutcome :
    {P D : Type 0}
    → (d : D) (source s : String) (w u : DeployWizard P D) → IsOrdered d source w u
    → HasOutcome d source s w (perform (done s) (perform (done s) u))
unfolding perform
done_twice-HasOutcome d source s w u (h, e) =
    let v = perform (done s) u in
    status_after-HasOutcome d source s w (perform (done s) v)
      (done_shown d (status_after s) s v (done_shown d cooking s u h))
      (done_sent (view v) s v ∙ done_sent (view u) s u ∙ e)

-- Where the page shows the order wizard and neither a preview nor a deployment is awaited, an order is
-- previewed, confirmed and deployed, and the stream of its progress is read to its end, opened again and read
-- once more. Then the page shows the deployment, as served exactly where the final status is "succeeded" or
-- "success", and as burned exactly where it is neither; and the recipe of the order has been sent once.
pub perform_all-replayed :
    {P D : Type 0}
    → (name source : String) (p : P) (d : D) (use_pizza_metaphor : Bool) (messages : List String)
      (status : String) (w : DeployWizard P D)
    → view w ≡ order_wizard
    → w.previews_awaited ≡ []
    → w.deploys_awaited ≡ []
    → let r =
        perform_all
          (map done (completions use_pizza_metaphor messages status))
          (perform_all (deployed_order name source p d) w) in
      ((view r ≡ deploy_progress d served) ↔ ((status ≡ "succeeded") ⊎ (status ≡ "success")))
      × ((view r ≡ deploy_progress d burned) ↔ ((status ≢ "succeeded") × (status ≢ "success")))
      × (r.deploys_sent ≡ w.deploys_sent ++ source ∷ [])
perform_all-replayed {P} {D} name source p d use_pizza_metaphor messages status w h e k =
    let u = perform_all (deployed_order name source p d) w in
    let (_, _, _, c, _) = first_progress-replayed use_pizza_metaphor messages status in
    subst (λ ss. HasOutcome d source status w (perform_all (map done ss) u)) (sym c)
      (done_twice-HasOutcome d source status w u (deployed_order-IsOrdered name source p d w h e k))

-- Where the page shows the order wizard, has no deployment, and awaits neither a preview nor a deployment, an
-- order that is previewed and confirmed and whose deployment fails is burned, with the message that
-- `deploy_message` makes of the error, and yet the page shows the order wizard: `Try Again` and `Edit Order` do
-- nothing there. The recipe has been sent once.
pub perform_all-deploy_failure :
    {P D : Type 0}
    → (name source raw : String) (p : P) (w : DeployWizard P D) → view w ≡ order_wizard
    → w.deployment ≡ none
    → w.previews_awaited ≡ []
    → w.deploys_awaited ≡ []
    → let r =
        perform_all
          (complete name source ∷ preview_answer 0 (some p) ∷ confirm ∷ deploy_failure 0 raw ∷ [])
          w in
      (r.deploy_status ≡ burned)
      × (r.deploy_error ≡ deploy_message raw)
      × (view r ≡ order_wizard)
      × (perform again r ≡ r)
      × (perform edit r ≡ r)
      × (r.deploys_sent ≡ w.deploys_sent ++ source ∷ [])
unfolding perform view handle_wizard_complete handle_confirm_deploy previewed execute_deploy
    not_deployed
perform_all-deploy_failure name source raw p w h n e k = (
  rw (h, n, e, k) refl,
  rw (h, n, e, k) refl,
  rw (h, n, e, k) refl,
  rw (h, n, e, k) refl,
  rw (h, n, e, k) refl,
  rw (h, n, e, k) refl,
)
