-- ===== src/Guided/Wizard/Shown.antt =====
-- What the review of the guided wizard shows, and what its controls for the extras remove.
use mozza.Prelude.{◌≡◌, true, false, Bool, List, [], ◌∷◌, arith, any}
use mozza.Guided.Source.{generate_recipe_source}
use mozza.Guided.Wizard.{
  Wizard, in_review, handle_next, handle_back, handle_type_select, is_step_valid, Action, save,
  perform, perform_all, initial, reviewed,
}
use mozza.Guided.Wizard.Steps.{initial-AtStep, or_else_self, AtStep, perform-AtStep}

abbrev pub is_save : Action → Bool
is_save save = true
is_save _ = false

-- The review shows the recipe of the services, as they are now.
abbrev pub IsFresh : Wizard → Type 0
IsFresh w = in_review w ≡ true → w.recipe_source ≡ generate_recipe_source w.app_name w.services

perform-IsFresh :
    (a : Action) (w : Wizard) → is_save a ≡ false → AtStep w → IsFresh w → IsFresh (perform a w)
unfolding perform handle_next handle_back handle_type_select is_step_valid
perform-IsFresh save w kept v h = λ r. ground arith
perform-IsFresh a w kept v h = λ r. ground (arith, h, v.last)

perform_all-IsFresh :
    (acts : List Action) (w : Wizard)
    → any is_save acts ≡ false
    → AtStep w
    → IsFresh w
    → IsFresh (perform_all acts w)
perform_all-IsFresh [] w kept v h = h
perform_all-IsFresh (a ∷ acts) w kept v h =
    perform_all-IsFresh acts (perform a w) (ground arith) (perform-AtStep a w v)
      (perform-IsFresh a w (ground arith) v h)

-- A user who saves no change of the text reviews the recipe of the services as they are then,
-- whatever the user did before, going back and changing the type included.
pub reviewed_lem :
    (acts : List Action)
    → any is_save acts ≡ false
    → in_review (perform_all acts initial) ≡ true
    → let w = perform_all acts initial in reviewed w ≡ generate_recipe_source w.app_name w.services
reviewed_lem acts kept there =
    let w = perform_all acts initial in
    rw (perform_all-IsFresh acts initial kept initial-AtStep (λ r. ground arith) there)
      (or_else_self (generate_recipe_source w.app_name w.services))
