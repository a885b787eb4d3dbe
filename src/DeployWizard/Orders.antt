-- ===== src/DeployWizard/Orders.antt =====
-- ui/src/components/deploy/DeployWizard.tsx on the recipes that it sends to be deployed.
use mozza.Prelude.{
  all_in, all_in-snoc, ℕ, zero, suc, ◌≡◌, refl, Bool, true, Option, none, some, List, [], ◌∷◌,
  String, arith, string_eq, includes,
}
use mozza.DeployWizard.{
  dismiss, advanced_answer, dismiss_onboarding, handle_advanced_mode, DeployWizard, DeployStatus,
  View, order_wizard, review_order, deploy_progress, DeployEvent, complete, confirm, back, edit,
  reset, again, preview_answer, deploy_answer, deploy_failure, done, perform, view, nth, without,
  execute_deploy, deployed, not_deployed, handle_wizard_complete, previewed, handle_confirm_deploy,
  handle_back_to_wizard, handle_deploy_done, handle_edit_order, reset_wizard, try_again, on_wizard,
  on_review, on_progress, on_status, answer_preview, answer_deploy, burned, served,
}

-- The sources of the orders among what happens.
abbrev pub ordered : {P D : Type 0} → List (DeployEvent P D) → List String
ordered [] = []
ordered (complete name source ∷ es) = source ∷ ordered es
ordered (_ ∷ es) = ordered es

all_in-without :
    (known : List String) (n : ℕ) (ss : List String)
    → all_in known ss ≡ true
    → all_in known (without n ss) ≡ true
all_in-without known n [] h = refl
all_in-without known zero (s ∷ ss) h = ground arith
all_in-without known (suc n) (s ∷ ss) h = ground (arith, all_in-without known n ss)

includes-nth :
    (known : List String) (n : ℕ) (ss : List String) (s : String)
    → all_in known ss ≡ true
    → nth n ss ≡ some s
    → includes known s ≡ true
includes-nth known n [] s h e = ground arith
includes-nth known zero (t ∷ ss) s h e = ground arith
includes-nth known (suc n) (t ∷ ss) s h e = ground (arith, includes-nth known n ss s)

-- All the sources of a state are known: the current one, those previewed, and those deployed.
abbrev pub IsKnown : {P D : Type 0} → List String → DeployWizard P D → Type 0
IsKnown known w =
    (includes known w.recipe_source ≡ true)
    × (all_in known w.previews_awaited ≡ true)
    × (all_in known w.deploys_sent ≡ true)

execute_deploy-IsKnown :
    {P D : Type 0}
    → (known : List String) (source : String) (w : DeployWizard P D) → includes known source ≡ true
    → IsKnown known w
    → IsKnown known (execute_deploy source w)
unfolding execute_deploy
execute_deploy-IsKnown known source w k (a, b, c) =
    (a, b, all_in-snoc known w.deploys_sent source c k)

on_wizard-IsKnown :
    {P D : Type 0}
    → (known : List String) (v : View P D) (f : DeployWizard P D → DeployWizard P D)
      (w : DeployWizard P D)
    → IsKnown known w
    → IsKnown known (f w)
    → IsKnown known (on_wizard v f w)
on_wizard-IsKnown known order_wizard f w h k = k
on_wizard-IsKnown known (review_order p n s) f w h k = h
on_wizard-IsKnown known (deploy_progress d s) f w h k = h

on_review-IsKnown :
    {P D : Type 0}
    → (known : List String) (v : View P D) (f : DeployWizard P D → DeployWizard P D)
      (w : DeployWizard P D)
    → IsKnown known w
    → IsKnown known (f w)
    → IsKnown known (on_review v f w)
on_review-IsKnown known order_wizard f w h k = h
on_review-IsKnown known (review_order p n s) f w h k = k
on_review-IsKnown known (deploy_progress d s) f w h k = h

on_progress-IsKnown :
    {P D : Type 0}
    → (known : List String) (v : View P D) (f : DeployWizard P D → DeployWizard P D)
      (w : DeployWizard P D)
    → IsKnown known w
    → IsKnown known (f w)
    → IsKnown known (on_progress v f w)
on_progress-IsKnown known order_wizard f w h k = h
on_progress-IsKnown known (review_order p n s) f w h k = h
on_progress-IsKnown known (deploy_progress d s) f w h k = k

on_status-IsKnown :
    {P D : Type 0}
    → (known : List String) (x : DeployStatus) (v : View P D)
      (f : DeployWizard P D → DeployWizard P D) (w : DeployWizard P D)
    → IsKnown known w
    → IsKnown known (f w)
    → IsKnown known (on_status x v f w)
on_status-IsKnown known x v f w h k = ground arith

answer_deploy-IsKnown :
    {P D : Type 0}
    → (known : List String) (o : Option String) (f : DeployWizard P D → DeployWizard P D)
      (w : DeployWizard P D)
    → IsKnown known w
    → IsKnown known (f w)
    → IsKnown known (answer_deploy o f w)
answer_deploy-IsKnown known none f w h k = h
answer_deploy-IsKnown known (some s) f w h k = k

answer_preview-IsKnown :
    {P D : Type 0}
    → (known : List String) (p : Option P) (o : Option String) (w : DeployWizard P D)
    → ((s : String) → o ≡ some s → includes known s ≡ true)
    → IsKnown known w
    → IsKnown known (answer_preview p o w)
unfolding previewed
answer_preview-IsKnown known p none w k h = h
answer_preview-IsKnown known none (some s) w k h = execute_deploy-IsKnown known s w (k s refl) h
answer_preview-IsKnown known (some p) (some s) w k h = h

-- The sources of one event.
abbrev pub source_in : {P D : Type 0} → List String → DeployEvent P D → Bool
source_in known (complete name source) = includes known source
source_in known _ = true

pub perform-IsKnown :
    {P D : Type 0}
    → (known : List String) (e : DeployEvent P D) (w : DeployWizard P D) → includes known "" ≡ true
    → source_in known e ≡ true
    → IsKnown known w
    → IsKnown known (perform e w)
unfolding perform handle_wizard_complete handle_confirm_deploy handle_back_to_wizard
    handle_edit_order reset_wizard try_again deployed not_deployed handle_deploy_done
    dismiss_onboarding handle_advanced_mode
perform-IsKnown known (complete name source) w z k (a, b, c) =
    on_wizard-IsKnown known (view w) (handle_wizard_complete name source) w (a, b, c)
      (k, all_in-snoc known w.previews_awaited source b k, c)
perform-IsKnown known confirm w z k h =
    on_review-IsKnown known (view w) handle_confirm_deploy w h
      (execute_deploy-IsKnown known w.recipe_source w h.0 h)
perform-IsKnown known back w z k h = on_review-IsKnown known (view w) handle_back_to_wizard w h h
perform-IsKnown known edit w z k h = on_status-IsKnown known burned (view w) handle_edit_order w h h
perform-IsKnown known reset w z k (a, b, c) =
    on_status-IsKnown known served (view w) reset_wizard w (a, b, c) (z, b, c)
perform-IsKnown known again w z k h = on_status-IsKnown known burned (view w) try_again w h (
    execute_deploy-IsKnown known w.recipe_source (record w { deployment = none; deploy_error = "" })
      h.0 h)
perform-IsKnown known dismiss w z k h = on_wizard-IsKnown known (view w) dismiss_onboarding w h h
perform-IsKnown known (advanced_answer none) w z k h = h
perform-IsKnown known (advanced_answer (some id)) w z k h = h
perform-IsKnown known (preview_answer n p) w z k (a, b, c) =
    answer_preview-IsKnown known p (nth n w.previews_awaited)
      (record w { previews_awaited = without n w.previews_awaited })
      (λ s e. includes-nth known n w.previews_awaited s b e)
      (a, all_in-without known n w.previews_awaited b, c)
perform-IsKnown known (deploy_answer n d) w z k h =
    answer_deploy-IsKnown known (nth n w.deploys_awaited) (deployed d)
      (record w { deploys_awaited = without n w.deploys_awaited }) h h
perform-IsKnown known (deploy_failure n raw) w z k h =
    answer_deploy-IsKnown known (nth n w.deploys_awaited) (not_deployed raw)
      (record w { deploys_awaited = without n w.deploys_awaited }) h h
perform-IsKnown known (done s) w z k h =
    on_progress-IsKnown known (view w) (handle_deploy_done s) w h h
