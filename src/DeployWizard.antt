-- ===== src/DeployWizard.antt =====
-- ui/src/components/deploy/DeployWizard.tsx: from an order to its review, its deployment, and what it came
-- to. The answers of the server arrive later than the requests, in any order.
pub mod Answers
pub mod Orders
pub mod Outcome
pub mod Sent
mod Tests
use mozza.Prelude.{
  ℕ, zero, suc, ◌+◌, ◌-◌, Bool, true, false, not, ◌&&◌, ◌||◌, Option, none, some, List, [], ◌∷◌,
  ◌++◌, String, template, codes, contains, ltb, ◌==◌, string_eq, nat_eq, if◌then◌else◌,
}

pub data DeployStatus : Type 0 where
  idle reviewing cooking served burned : DeployStatus

-- What the page shows: the review, the progress of a deployment, or the order wizard. No part of the page
-- reads `deployError` or `deploying`.
pub data View (P D : Type 0) : Type 0 where
  review_order : P → String → String → View P D
  deploy_progress : D → DeployStatus → View P D
  order_wizard : View P D

-- The state, for a type `P` of previews and a type `D` of deployments; the sources whose preview or
-- whose deployment is awaited; and the sources sent to be deployed so far.
pub record DeployWizard (P D : Type 0) : Type 0 where
  pub show_onboarding : Bool
  pub navigated : Option String
  pub deploying : Bool
  pub deployment : Option D
  pub recipe_name : String
  pub recipe_source : String
  pub preview : Option P
  pub deploy_status : DeployStatus
  pub deploy_error : String
  pub previews_awaited : List String
  pub deploys_awaited : List String
  pub deploys_sent : List String

-- The page when it opens, where the browser has not stored that the onboarding was seen.
abbrev pub first_deploy : {P D : Type 0} → DeployWizard P D
first_deploy = record {
  show_onboarding = true;
  navigated = none;
  deploying = false;
  deployment = none;
  recipe_name = "";
  recipe_source = "";
  preview = none;
  deploy_status = idle;
  deploy_error = "";
  previews_awaited = [];
  deploys_awaited = [];
  deploys_sent = [];
}

-- The messages for the errors that a failed deployment names.
pub deploy_message : String → String
deploy_message raw =
    let names : String → Bool = λ s. contains (codes raw) (codes s) in
    if names "recipe parse failed"
    then "Recipe has syntax errors — check your recipe and try again."
    else if names "plan build failed"
    then "Could not build a deployment plan — check service dependencies."
    else if names "plan validation failed"
    then "Plan validation failed — check service configuration."
    else if names "not a team member"
    then "You don't have access to this team."
    else if names "deploy failed"
    then "Deployment failed — check the logs for details."
    else template ("Something went wrong: " ∷ raw ∷ [])

-- The element at a place, and the others.
abbrev pub nth : {T : Type 0} → ℕ → List T → Option T
nth n [] = none
nth zero (x ∷ xs) = some x
nth (suc n) (x ∷ xs) = nth n xs

abbrev pub without : {T : Type 0} → ℕ → List T → List T
without n [] = []
without zero (x ∷ xs) = xs
without (suc n) (x ∷ xs) = x ∷ without n xs

-- `executeDeploy`, up to its request
pub execute_deploy : {P D : Type 0} → String → DeployWizard P D → DeployWizard P D
execute_deploy source w = record w {
  deploying = true;
  deploy_status = cooking;
  deploys_awaited = w.deploys_awaited ++ source ∷ [];
  deploys_sent = w.deploys_sent ++ source ∷ [];
}

-- The answer to it.
pub deployed : {P D : Type 0} → D → DeployWizard P D → DeployWizard P D
deployed d w = record w { deployment = some d; deploying = false }

pub not_deployed : {P D : Type 0} → String → DeployWizard P D → DeployWizard P D
not_deployed raw w = record w {
  deploy_error = deploy_message raw;
  deploy_status = burned;
  deploying = false;
}

-- `handleWizardComplete`, up to its request
pub handle_wizard_complete : {P D : Type 0} → String → String → DeployWizard P D → DeployWizard P D
handle_wizard_complete name source w = record w {
  recipe_name = name;
  recipe_source = source;
  previews_awaited = w.previews_awaited ++ source ∷ [];
}

pub previewed : {P D : Type 0} → P → DeployWizard P D → DeployWizard P D
previewed p w = record w { preview = some p; deploy_status = reviewing }

pub handle_confirm_deploy : {P D : Type 0} → DeployWizard P D → DeployWizard P D
unfolding execute_deploy
handle_confirm_deploy w = execute_deploy w.recipe_source w

pub handle_back_to_wizard : {P D : Type 0} → DeployWizard P D → DeployWizard P D
handle_back_to_wizard w = record w { preview = none; deploy_status = idle }

pub handle_deploy_done : {P D : Type 0} → String → DeployWizard P D → DeployWizard P D
handle_deploy_done final_status w = record w {
  deploy_status =
      if final_status == "succeeded" || final_status == "success" then served else burned;
}

pub handle_edit_order : {P D : Type 0} → DeployWizard P D → DeployWizard P D
handle_edit_order w = record w { deployment = none; deploy_status = idle }

pub reset_wizard : {P D : Type 0} → DeployWizard P D → DeployWizard P D
reset_wizard w = record w {
  deployment = none;
  deploy_status = idle;
  recipe_source = "";
  preview = none;
}

-- `handleAdvancedMode`, when the recipe has been created, `none` where that fails
pub handle_advanced_mode : {P D : Type 0} → Option String → DeployWizard P D → DeployWizard P D
handle_advanced_mode none w = record w { navigated = some "/app/recipes" }
handle_advanced_mode (some id) w = record w {
  navigated = some (template ("/app/recipes/" ∷ id ∷ []));
}

pub dismiss_onboarding : {P D : Type 0} → DeployWizard P D → DeployWizard P D
dismiss_onboarding w = record w { show_onboarding = false }

-- `Try Again`
pub try_again : {P D : Type 0} → DeployWizard P D → DeployWizard P D
unfolding execute_deploy
try_again w = execute_deploy w.recipe_source (record w { deployment = none; deploy_error = "" })

abbrev progress_view : {P D : Type 0} → Option D → DeployStatus → View P D
progress_view none status = order_wizard
progress_view (some d) idle = order_wizard
progress_view (some d) status = deploy_progress d status

abbrev view_of : {P D : Type 0} → Option P → DeployStatus → DeployWizard P D → View P D
view_of (some p) reviewing w = review_order p w.recipe_name w.recipe_source
view_of p status w = progress_view w.deployment status

pub view : {P D : Type 0} → DeployWizard P D → View P D
view w = view_of w.preview w.deploy_status w

-- What the user does, where the page shows the button for it, and the answers that arrive.
pub data DeployEvent (P D : Type 0) : Type 0 where
  complete : String → String → DeployEvent P D
  confirm back edit reset again dismiss : DeployEvent P D
  advanced_answer : Option String → DeployEvent P D
  preview_answer : ℕ → Option P → DeployEvent P D
  deploy_answer : ℕ → D → DeployEvent P D
  deploy_failure : ℕ → String → DeployEvent P D
  done : String → DeployEvent P D

abbrev answer_preview :
    {P D : Type 0} → Option P → Option String → DeployWizard P D → DeployWizard P D
answer_preview p none w = w
answer_preview none (some source) w = execute_deploy source w
answer_preview (some p) (some source) w = previewed p w

abbrev answer_deploy :
    {P D : Type 0}
    → Option String
    → (DeployWizard P D → DeployWizard P D)
    → DeployWizard P D
    → DeployWizard P D
answer_deploy none f w = w
answer_deploy (some source) f w = f w

abbrev on_wizard :
    {P D : Type 0}
    → View P D
    → (DeployWizard P D → DeployWizard P D)
    → DeployWizard P D
    → DeployWizard P D
on_wizard order_wizard f w = f w
on_wizard (review_order p name source) f w = w
on_wizard (deploy_progress d status) f w = w

abbrev on_review :
    {P D : Type 0}
    → View P D
    → (DeployWizard P D → DeployWizard P D)
    → DeployWizard P D
    → DeployWizard P D
on_review order_wizard f w = w
on_review (review_order p name source) f w = f w
on_review (deploy_progress d status) f w = w

abbrev on_progress :
    {P D : Type 0}
    → View P D
    → (DeployWizard P D → DeployWizard P D)
    → DeployWizard P D
    → DeployWizard P D
on_progress order_wizard f w = w
on_progress (review_order p name source) f w = w
on_progress (deploy_progress d status) f w = f w

abbrev on_status :
    {P D : Type 0}
    → DeployStatus
    → View P D
    → (DeployWizard P D → DeployWizard P D)
    → DeployWizard P D
    → DeployWizard P D
on_status burned (deploy_progress d burned) f w = f w
on_status served (deploy_progress d served) f w = f w
on_status _ _ f w = w

pub perform : {P D : Type 0} → DeployEvent P D → DeployWizard P D → DeployWizard P D
unfolding view handle_wizard_complete handle_confirm_deploy handle_back_to_wizard handle_edit_order
    reset_wizard try_again previewed execute_deploy deployed not_deployed handle_deploy_done
perform (complete name source) w = on_wizard (view w) (handle_wizard_complete name source) w
perform confirm w = on_review (view w) handle_confirm_deploy w
perform back w = on_review (view w) handle_back_to_wizard w
perform edit w = on_status burned (view w) handle_edit_order w
perform reset w = on_status served (view w) reset_wizard w
perform again w = on_status burned (view w) try_again w
perform dismiss w = on_wizard (view w) dismiss_onboarding w
perform (advanced_answer id) w = handle_advanced_mode id w
perform (preview_answer n p) w =
    answer_preview p (nth n w.previews_awaited)
      (record w { previews_awaited = without n w.previews_awaited })
perform (deploy_answer n d) w =
    answer_deploy (nth n w.deploys_awaited) (deployed d)
      (record w { deploys_awaited = without n w.deploys_awaited })
perform (deploy_failure n raw) w =
    answer_deploy (nth n w.deploys_awaited) (not_deployed raw)
      (record w { deploys_awaited = without n w.deploys_awaited })
perform (done final_status) w = on_progress (view w) (handle_deploy_done final_status) w

abbrev pub perform_all :
    {P D : Type 0} → List (DeployEvent P D) → DeployWizard P D → DeployWizard P D
perform_all [] w = w
perform_all (e ∷ es) w = perform_all es (perform e w)
