-- ===== src/DeployWizard/Sent.antt =====
-- ui/src/components/deploy/DeployWizard.tsx: what an order comes to, and where the recipes that are sent
-- come from.
use mozza.Prelude.{
  all_in, all_in-cons, all_in_self, ◌≡◌, refl, true, none, some, List, [], ◌∷◌, ◌++◌, String, arith,
  string_eq, includes,
}
use mozza.DeployWizard.{
  DeployWizard, first_deploy, order_wizard, review_order, DeployEvent, complete, confirm,
  preview_answer, perform, perform_all, view, execute_deploy, handle_wizard_complete, previewed,
  handle_confirm_deploy,
}
use mozza.DeployWizard.Orders.{ordered, source_in, IsKnown, perform-IsKnown}

source_in-ordered :
    {P D : Type 0}
    → (known : List String) (e : DeployEvent P D) (es : List (DeployEvent P D))
    → all_in known (ordered (e ∷ es)) ≡ true
    → (source_in known e ≡ true) × (all_in known (ordered es) ≡ true)
source_in-ordered known (complete name source) es h = (ground arith, ground arith)
source_in-ordered known _ es h = (refl, h)

perform_all-IsKnown :
    {P D : Type 0}
    → (known : List String) (es : List (DeployEvent P D)) (w : DeployWizard P D)
    → includes known "" ≡ true
    → all_in known (ordered es) ≡ true
    → IsKnown known w
    → IsKnown known (perform_all es w)
perform_all-IsKnown known [] w z k h = h
perform_all-IsKnown known (e ∷ es) w z k h =
    let (a, b) = source_in-ordered known e es k in
    perform_all-IsKnown known es (perform e w) z b (perform-IsKnown known e w z a h)

-- Whatever the user does and in whatever order the answers arrive, every recipe that is sent to be deployed
-- is one that the order wizard has been completed with, or empty.
pub deploys_sent-ordered :
    {P D : Type 0}
    → (es : List (DeployEvent P D))
    → all_in ("" ∷ ordered es) (perform_all es first_deploy).deploys_sent ≡ true
deploys_sent-ordered es =
    let known = "" ∷ ordered es in
    (perform_all-IsKnown known es first_deploy refl
      (all_in-cons (ordered es) (ordered es) "" (all_in_self (ordered es))) (refl, refl, refl)).2

-- Where the page shows the order wizard and no preview is awaited, an order whose preview arrives shows its
-- own recipe for review; confirming it sends that recipe, once. Where the preview fails, the recipe is sent
-- without review.
pub complete-confirm :
    {P D : Type 0}
    → (name source : String) (p : P) (w : DeployWizard P D) → view w ≡ order_wizard
    → w.previews_awaited ≡ []
    → let shown = perform_all (complete name source ∷ preview_answer 0 (some p) ∷ []) w in
      (view shown ≡ review_order p name source)
      × ((perform confirm shown).deploys_sent ≡ w.deploys_sent ++ source ∷ [])
      × ((perform_all (complete name source ∷ preview_answer 0 none ∷ []) w).deploys_sent
          ≡ w.deploys_sent ++ source ∷ [])
unfolding perform view handle_wizard_complete handle_confirm_deploy previewed execute_deploy
complete-confirm name source p w h e = (rw (h, e) refl, rw (h, e) refl, rw (h, e) refl)
