-- ===== src/DeployError/Tests.antt =====
-- Explanations of concrete logs.
use mozza.Prelude.{
  ℕ, ◌≡◌, ◌↔◌, ◌⊎◌, refl, true, false, Option, none, some, List, [], ◌∷◌, ◌++◌, String, suc,
  get_elem?,
}
use mozza.DeployError.{analyze_deploy_error, image_missing}
use mozza.DeployError.Explained.{analyze_deploy_error-append}

abbrev pulling : List String
pulling = "Pulling" ∷ "Image acme/web:2 Not Found" ∷ []

on_one_line : analyze_deploy_error pulling ≡ some image_missing.error
unfolding analyze_deploy_error mozza.Prelude.matches mozza.Prelude.has_on_line
    mozza.Prelude.contains mozza.Prelude.lower mozza.Prelude.join
on_one_line = refl

on_two_lines : analyze_deploy_error ("Image acme/web:2" ∷ "Not Found" ∷ []) ≡ none
unfolding analyze_deploy_error mozza.Prelude.matches mozza.Prelude.has_on_line
    mozza.Prelude.contains mozza.Prelude.lower mozza.Prelude.join
on_two_lines = refl

analyze_deploy_error-append_example : analyze_deploy_error ("Pulling" ∷ []) ≡ none
unfolding analyze_deploy_error mozza.Prelude.matches mozza.Prelude.has_on_line
    mozza.Prelude.contains mozza.Prelude.lower mozza.Prelude.join
analyze_deploy_error-append_example =
    analyze_deploy_error-append ("Pulling" ∷ []) ("Started" ∷ []) refl
