-- ===== src/DeployWizard/Answers.antt =====
-- ui/src/components/deploy/DeployWizard.tsx on the answers of the server: what the page shows after them.
use mozza.Prelude.{
  ◌≡◌, refl, ap, ◌∙◌, Option, none, some, String, ◌||◌, arith, string_eq, ◌==◌, Bool-cases, inl,
  inr, if◌then◌else◌,
}
use mozza.DeployWizard.{
  DeployWizard, on_progress, DeployStatus, served, burned, View, order_wizard, review_order,
  deploy_progress, handle_deploy_done, view, done, perform, progress_view, view_of,
}

view_of-burned :
    {P D : Type 0}
    → (p : Option P) (w : DeployWizard P D) → w.deployment ≡ none
    → view_of p burned w ≡ order_wizard
view_of-burned none w h = ap (λ d. progress_view d burned) h
view_of-burned (some p) w h = ap (λ d. progress_view d burned) h

-- What a final status comes to.
abbrev pub status_after : String → DeployStatus
status_after s = if s == "succeeded" || s == "success" then served else burned

progress_view-status_after :
    {P D : Type 0}
    → (d : D) (s : String)
    → progress_view {P = P} (some d) (status_after s) ≡ deploy_progress d (status_after s)
progress_view-status_after d s = elim (Bool-cases (s == "succeeded" || s == "success")) [
  | inl y ↦ rw y refl
  | inr n ↦ rw n refl
]

view_of-status_after :
    {P D : Type 0}
    → (p : Option P) (d : D) (s : String) (w : DeployWizard P D) → w.deployment ≡ some d
    → view_of p (status_after s) w ≡ deploy_progress d (status_after s)
view_of-status_after none d s w h =
    ap (λ o. progress_view o (status_after s)) h ∙ progress_view-status_after d s
view_of-status_after (some p) d s w h = elim (Bool-cases (s == "succeeded" || s == "success")) [
  | inl y ↦ rw y (ap (λ o. progress_view o served) h)
  | inr n ↦ rw n (ap (λ o. progress_view o burned) h)
]

-- Where the page shows the progress of a deployment, what it shows of it once it is done is its outcome: the
-- deployment is served for the statuses "succeeded" and "success", and burned for all others.
pub view-handle_deploy_done :
    {P D : Type 0}
    → (d : D) (s : String) (w : DeployWizard P D) → w.deployment ≡ some d
    → view (handle_deploy_done s w) ≡ deploy_progress d (status_after s)
unfolding view handle_deploy_done
view-handle_deploy_done d s w h = view_of-status_after w.preview d s (handle_deploy_done s w) h

deployment-deployment-view :
    {P D : Type 0}
    → (o : Option D) (p : Option P) (x : DeployStatus) (w : DeployWizard P D) (d : D)
      (y : DeployStatus)
    → w.deployment ≡ o
    → view_of p x w ≡ deploy_progress d y
    → o ≡ some d
deployment-deployment-view o p x w d y e h = ground arith

deployment-view :
    {P D : Type 0}
    → (w : DeployWizard P D) (d : D) (y : DeployStatus) → view w ≡ deploy_progress d y
    → w.deployment ≡ some d
unfolding view
deployment-view w d y h =
    deployment-deployment-view w.deployment w.preview w.deploy_status w d y refl h

pub done_shown :
    {P D : Type 0}
    → (d : D) (y : DeployStatus) (s : String) (w : DeployWizard P D) → view w ≡ deploy_progress d y
    → view (perform (done s) w) ≡ deploy_progress d (status_after s)
unfolding perform
done_shown d y s w h =
    ap (λ v. view (on_progress v (handle_deploy_done s) w)) h
    ∙ view-handle_deploy_done d s w (deployment-view w d y h)

pub done_sent :
    {P D : Type 0}
    → (v : View P D) (s : String) (w : DeployWizard P D)
    → (on_progress v (handle_deploy_done s) w).deploys_sent ≡ w.deploys_sent
unfolding handle_deploy_done
done_sent order_wizard s w = refl
done_sent (review_order p name source) s w = refl
done_sent (deploy_progress d y) s w = refl
