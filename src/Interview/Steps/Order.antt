-- ===== src/Interview/Steps/Order.antt =====
-- How the wizard of interview-engine.ts walks through the steps that are not skipped.
use mozza.Prelude.{ℕ, ◌<◌, ◌≡◌, ◌↔◌, ◌⊎◌, false, Option, none, some, arith, find, ◌==◌, nat_eq}
use mozza.Interview.{ServiceInterviewState, WizardTarget, local, kitchen}
use mozza.Interview.Steps.{
  InterviewQuestion, skipped, get_active_steps, get_next_step, get_previous_step,
}

-- Step `m` is shown in no interview of this target.
abbrev pub IsHidden : ServiceInterviewState → WizardTarget → ℕ → Type 0
IsHidden st t m = find (λ s. s.step_number == m) (get_active_steps st t) ≡ none

-- What "the next step that is not skipped" means.
pub record IsNext (st : ServiceInterviewState) (t : WizardTarget) (n : ℕ) (q : InterviewQuestion)
    : Type 0 where
  pub later : n < q.step_number
  pub shown : skipped st t q ≡ false
  pub nearest : (m : ℕ) → n < m → m < q.step_number → IsHidden st t m

-- The next step, if there is one, is active, later than the current one, and the nearest such.
pub get_next_step-IsNext :
    (n : ℕ) (st : ServiceInterviewState) (t : WizardTarget) (q : InterviewQuestion)
    → get_next_step n st t ≡ some q
    → IsNext st t n q
unfolding get_next_step
get_next_step-IsNext n st local q h = record {
  later = ground arith;
  shown = ground arith;
  nearest = λ m a b. ground arith;
}
get_next_step-IsNext n st kitchen q h = record {
  later = ground arith;
  shown = ground arith;
  nearest = λ m a b. ground arith;
}

-- The number of the step, if there is one.
abbrev pub number_of : Option InterviewQuestion → Option ℕ
number_of none = none
number_of (some q) = some q.step_number

-- Where there is a next step, going back from it returns to the number of the current one.
pub previous-next :
    (n : ℕ) (st : ServiceInterviewState) (t : WizardTarget) (q : InterviewQuestion)
    → get_next_step n st t ≡ some q
    → number_of (get_previous_step q.step_number st t) ≡ some n
unfolding get_next_step get_previous_step
previous-next n st local q h = ground arith
previous-next n st kitchen q h = ground arith

-- Going on from the previous step returns to the current one.
pub next-previous :
    (n : ℕ) (st : ServiceInterviewState) (t : WizardTarget) (q : InterviewQuestion)
    → get_previous_step n st t ≡ some q
    → number_of (get_next_step q.step_number st t) ≡ some n
unfolding get_next_step get_previous_step
next-previous n st local q h = ground arith
next-previous n st kitchen q h = ground arith

-- There is no next step exactly at the last step and at the steps that are not shown.
pub get_next_step-eq-none_iff :
    (n : ℕ) (st : ServiceInterviewState) (t : WizardTarget)
    → (get_next_step n st t ≡ none) ↔ (IsHidden st t n ⊎ (n ≡ 9))
unfolding get_next_step
get_next_step-eq-none_iff n st local = ground arith
get_next_step-eq-none_iff n st kitchen = ground arith
