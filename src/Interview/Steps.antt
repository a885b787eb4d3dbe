-- ===== src/Interview/Steps.antt =====
-- ui/src/lib/interview-engine.ts, its first half: the steps of the interview and how the wizard
-- moves between those that are not skipped.
pub mod Order
mod Tests
use mozza.Prelude.{
  ℕ, suc, ◌-◌, Bool, true, false, not, ◌&&◌, Option, none, some, List, [], ◌∷◌, String, length,
  get_elem?, filter, find, find_index, ltb, ◌==◌, nat_eq, if◌then◌else◌,
}
use mozza.Interview.{ServiceInterviewState, WizardTarget}

pub data TargetFilter : Type 0 where
  local kitchen both : TargetFilter

pub record InterviewQuestion : Type 0 where
  pub id : String
  pub step_number : ℕ
  pub title : String
  pub target_filter : TargetFilter
  pub skip_when : Option (ServiceInterviewState → WizardTarget → Bool)

abbrev pub is_local : ServiceInterviewState → WizardTarget → Bool
is_local _ WizardTarget.local = true
is_local _ WizardTarget.kitchen = false

abbrev pub question :
    String
    → ℕ
    → String
    → TargetFilter
    → Option (ServiceInterviewState → WizardTarget → Bool)
    → InterviewQuestion
question id n title filter skip = record {
  id = id;
  step_number = n;
  title = title;
  target_filter = filter;
  skip_when = skip;
}

abbrev pub steps : List InterviewQuestion
steps =
    question "place-order" 1 "What are you ordering?" both none
    ∷ question "traits" 2 "What’s on the menu?" TargetFilter.kitchen (some is_local)
    ∷ question "workload-inference" 3 "How should we prepare it?" TargetFilter.kitchen
        (some is_local)
    ∷ question "networking" 4 "Where’s the entrance?" both none
    ∷ question "dependencies" 5 "Any sides with that?" both none
    ∷ question "configuration" 6 "Special instructions" both none
    ∷ question "anything-else" 7 "Anything else before we cook?" both none
    ∷ question "review" 8 "Review your order" both none
    ∷ question "deploy" 9 "Order placed!" both none
    ∷ []

-- `s.skipWhen?.(state, target)`, an absent test being falsy.
abbrev pub skipped : ServiceInterviewState → WizardTarget → InterviewQuestion → Bool
skipped state target s = elim s.skip_when [ none ↦ false | some test ↦ test state target ]

pub get_active_steps : ServiceInterviewState → WizardTarget → List InterviewQuestion
get_active_steps state target = filter (λ s. not (skipped state target s)) steps

-- The step after the first active one with this number, and the step before it.
pub next_in : ℕ → List InterviewQuestion → Option InterviewQuestion
next_in current active = elim (find_index (λ s. s.step_number == current) active) [
  | none ↦ none
  | some idx ↦ if ltb idx (length active - 1) then get_elem? active (suc idx) else none
]

pub previous_in : ℕ → List InterviewQuestion → Option InterviewQuestion
previous_in current active = elim (find_index (λ s. s.step_number == current) active) [
  | none ↦ none
  | some idx ↦ if ltb 0 idx then get_elem? active (idx - 1) else none
]

pub get_next_step : ℕ → ServiceInterviewState → WizardTarget → Option InterviewQuestion
unfolding get_active_steps next_in
get_next_step current state target = next_in current (get_active_steps state target)

pub get_previous_step : ℕ → ServiceInterviewState → WizardTarget → Option InterviewQuestion
unfolding get_active_steps previous_in
get_previous_step current state target = previous_in current (get_active_steps state target)

pub get_step_by_number : ℕ → Option InterviewQuestion
get_step_by_number n = find (λ s. s.step_number == n) steps

pub get_all_steps : List InterviewQuestion
get_all_steps = steps

pub is_review_step : ℕ → Bool
is_review_step n = n == 8

pub is_deploy_step : ℕ → Bool
is_deploy_step n = n == 9

pub get_next_button_text : ℕ → String
get_next_button_text n =
    if n == 1 then "Start your order →" else if n == 8 then "Place Order" else "Next →"

abbrev pub total_steps : ℕ
total_steps = length steps

abbrev pub fast_lane_steps : List InterviewQuestion
fast_lane_steps =
    question "fl-pick" 1 "What do you want to run?" both none
    ∷ question "fl-customize" 2 "How do you want it?" both none
    ∷ question "fl-review" 3 "Review your order" both none
    ∷ []
