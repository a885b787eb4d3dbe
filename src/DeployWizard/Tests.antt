-- ===== src/DeployWizard/Tests.antt =====
-- Examples of the page of ui/src/components/deploy/DeployWizard.tsx.
use mozza.Prelude.{
  all_in, ◌≡◌, ◌≢◌, ◌⊎◌, ◌↔◌, refl, true, none, some, List, [], ◌∷◌, ◌++◌, String, map, ℕ,
}
use mozza.DeployWizard.{
  first_deploy, served, order_wizard, review_order, deploy_progress, DeployEvent, complete, confirm,
  reset, preview_answer, deploy_answer, done, perform, perform_all, view, deploy_message,
  execute_deploy, handle_deploy_done, again, edit, burned, deploy_failure, handle_wizard_complete,
  handle_confirm_deploy, previewed, deployed, reset_wizard,
}
use mozza.DeployWizard.Orders.{ordered}
use mozza.DeployWizard.Outcome.{
  completions, deployed_order, perform_all-replayed, perform_all-deploy_failure,
}
use mozza.DeployWizard.Sent.{deploys_sent-ordered, complete-confirm}

-- Previews are numbers here, and deployments texts.
abbrev an_order : List (DeployEvent ℕ String)
an_order =
    complete "shop" "Slices:"
    ∷ preview_answer 0 (some 3)
    ∷ confirm
    ∷ deploy_answer 0 "d1"
    ∷ done "success"
    ∷ []

an_order_served : view (perform_all an_order first_deploy) ≡ deploy_progress "d1" served
unfolding view perform execute_deploy handle_wizard_complete handle_confirm_deploy previewed
    deployed handle_deploy_done
an_order_served = refl

-- The preview of an earlier order arrives after `Place Another Order`.
abbrev late_preview : List (DeployEvent ℕ String)
late_preview =
    complete "shop" "Slices: a"
    ∷ complete "shop" "Slices: b"
    ∷ preview_answer 1 (some 4)
    ∷ confirm
    ∷ deploy_answer 0 "d1"
    ∷ done "success"
    ∷ reset
    ∷ preview_answer 0 (some 3)
    ∷ []

empty_recipe_reviewed : view (perform_all late_preview first_deploy) ≡ review_order 3 "shop" ""
unfolding view perform execute_deploy handle_wizard_complete handle_confirm_deploy previewed
    deployed handle_deploy_done reset_wizard
empty_recipe_reviewed = refl

deploys_sent-ordered_example :
    all_in
      ("" ∷ ordered (late_preview ++ confirm ∷ []))
      (perform_all (late_preview ++ confirm ∷ []) first_deploy).deploys_sent
    ≡ true
deploys_sent-ordered_example = deploys_sent-ordered (late_preview ++ confirm ∷ [])

view_first : view (first_deploy {P = ℕ} {D = String}) ≡ order_wizard
unfolding view
view_first = refl

complete-confirm_example :
    let shown =
      perform_all {P = ℕ} {D = String}
        (complete "shop" "Slices:" ∷ preview_answer 0 (some 3) ∷ [])
        first_deploy in
    (view shown ≡ review_order 3 "shop" "Slices:")
    × ((perform confirm shown).deploys_sent ≡ "Slices:" ∷ [])
    × ((perform_all {P = ℕ} {D = String}
          (complete "shop" "Slices:" ∷ preview_answer 0 none ∷ [])
          first_deploy).deploys_sent
        ≡ "Slices:" ∷ [])
complete-confirm_example = complete-confirm "shop" "Slices:" 3 first_deploy view_first refl

perform_all-replayed_example :
    let r =
      perform_all
        (map done (completions true ("Step 1/5: a" ∷ []) "failed"))
        (perform_all {P = ℕ} {D = String} (deployed_order "shop" "Slices:" 3 "d1") first_deploy) in
    let status : String = "failed" in
    ((view r ≡ deploy_progress "d1" served) ↔ ((status ≡ "succeeded") ⊎ (status ≡ "success")))
    × ((view r ≡ deploy_progress "d1" burned) ↔ ((status ≢ "succeeded") × (status ≢ "success")))
    × (r.deploys_sent ≡ "Slices:" ∷ [])
perform_all-replayed_example =
    perform_all-replayed "shop" "Slices:" 3 "d1" true ("Step 1/5: a" ∷ []) "failed" first_deploy
      view_first refl refl

perform_all-deploy_failure_example :
    let r =
      perform_all {P = ℕ} {D = String}
        (complete "shop" "Slices:"
          ∷ preview_answer 0 (some 3)
          ∷ confirm
          ∷ deploy_failure 0 "plan build failed"
          ∷ [])
        first_deploy in
    (r.deploy_status ≡ burned)
    × (r.deploy_error ≡ deploy_message "plan build failed")
    × (view r ≡ order_wizard)
    × (perform again r ≡ r)
    × (perform edit r ≡ r)
    × (r.deploys_sent ≡ "Slices:" ∷ [])
perform_all-deploy_failure_example =
    perform_all-deploy_failure "shop" "Slices:" "plan build failed" 3 first_deploy view_first refl
      refl refl
