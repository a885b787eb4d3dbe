-- ===== src/Guided/Wizard/Steps.antt =====
-- Which step the guided wizard can be at, and where its Next button leads.
use Prim.Native.Nat.{◌≤◌}
use mozza.Prelude.{
  ℕ, zero, suc, ◌≡◌, refl, ◌⊎◌, true, false, some, List, [], ◌∷◌, String, arith, inl, inr,
  Bool-cases,
}
use mozza.Guided.{or_else}
use mozza.Guided.Source.{generate_recipe_source}
use mozza.Guided.Wizard.{
  Wizard, total_steps, handle_next, handle_back, handle_type_select, is_step_valid, details_valid,
  Action, select, next, back, perform, perform_all, initial, is_database,
}
use mozza.Order.Navigation.{is_set}

-- A step of those that the type has, and a type from the second one on.
pub record AtStep (w : Wizard) : Type 0 where
  pub first : 1 ≤ w.step
  pub last : w.step ≤ total_steps w
  pub chosen : (w.step ≡ 1) ⊎ (is_set w.deploy_type ≡ true)

pub initial-AtStep : AtStep initial
initial-AtStep = record { first = omega arith; last = omega arith; chosen = inl refl }

-- It is about the step and the type alone.
step-AtStep : (v w : Wizard) → v.step ≡ w.step → v.deploy_type ≡ w.deploy_type → AtStep w → AtStep v
step-AtStep v w step type h = record {
  first = rw step h.first;
  last = rw (step, type) h.last;
  chosen = rw (step, type) h.chosen;
}

pub perform-AtStep : (a : Action) (w : Wizard) → AtStep w → AtStep (perform a w)
unfolding perform handle_next handle_back handle_type_select is_step_valid
perform-AtStep (select t) w v = record {
  first = ground (arith, v.first);
  last = ground (arith, v.last);
  chosen = ground (arith, v.chosen);
}
perform-AtStep next w v = record {
  first = ground (arith, v.first);
  last = ground (arith, v.last);
  chosen = ground (arith, v.chosen);
}
perform-AtStep back w v = record {
  first = ground (arith, v.first);
  last = ground (arith, v.last);
  chosen = ground (arith, v.chosen);
}
perform-AtStep a w v = step-AtStep (perform a w) w (ground arith) (ground arith) v

-- In a wizard that is at one of the steps of its type, and has a type from the second step on,
-- this stays so whatever the user does.
pub perform_all-AtStep : (acts : List Action) (w : Wizard) → AtStep w → AtStep (perform_all acts w)
perform_all-AtStep [] w v = v
perform_all-AtStep (a ∷ acts) w v = perform_all-AtStep acts (perform a w) (perform-AtStep a w v)

pub or_else_self : (s : String) → or_else s s ≡ s
or_else_self s = ground arith

-- The Next button, pressed some times.
abbrev pub presses : ℕ → List Action
presses zero = []
presses (suc n) = next ∷ presses n

-- The step before the review, and the review.
pub last_two :
    (w : Wizard)
    → suc w.step ≡ total_steps w
    → is_step_valid w ≡ true
    → (perform_all (presses 2) w).completed
      ≡ some (w.app_name, generate_recipe_source w.app_name w.services)
unfolding perform handle_next is_step_valid
last_two w at valid = ground (arith, or_else_self (generate_recipe_source w.app_name w.services))

is_step_valid_details :
    (w : Wizard)
    → w.step ≡ 2
    → details_valid w.deploy_type w.services ≡ true
    → is_step_valid w ≡ true
unfolding is_step_valid
is_step_valid_details w at valid = ground arith

pub is_step_valid_extras : (w : Wizard) → w.step ≡ 3 → is_step_valid w ≡ true
unfolding is_step_valid
is_step_valid_extras w at = ground arith

next-first :
    (w : Wizard) → w.step ≡ 1 → is_set w.deploy_type ≡ true → perform next w ≡ record w { step = 2 }
unfolding perform handle_next is_step_valid
next-first w at chosen = ground arith

next-details :
    (w : Wizard)
    → w.step ≡ 2
    → is_database w.deploy_type ≡ false
    → details_valid w.deploy_type w.services ≡ true
    → perform next w ≡ record w { step = 3 }
unfolding perform handle_next is_step_valid
next-details w at other valid = ground arith

-- From the first step, with a type and with details that are valid, pressing Next at each step of the
-- type completes the wizard, with the recipe of its services.
pub presses_complete :
    (w : Wizard)
    → w.step ≡ 1
    → is_set w.deploy_type ≡ true
    → details_valid w.deploy_type w.services ≡ true
    → (perform_all (presses (total_steps w)) w).completed
      ≡ some (w.app_name, generate_recipe_source w.app_name w.services)
presses_complete w at_first chosen valid = elim (Bool-cases (is_database w.deploy_type)) [
  | inl db ↦
      rw (db, next-first w at_first chosen)
        (last_two (record w { step = 2 }) (rw db refl)
          (is_step_valid_details (record w { step = 2 }) refl valid))
  | inr other ↦
      rw
        (other, next-first w at_first chosen, next-details (record w { step = 2 }) refl other valid)
        (last_two (record w { step = 3 }) (rw other refl)
          (is_step_valid_extras (record w { step = 3 }) refl))
]
