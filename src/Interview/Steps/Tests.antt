-- ===== src/Interview/Steps/Tests.antt =====
-- Runs of the interview's steps, and the theorems about them at concrete inputs.
use mozza.Prelude.{◌≡◌, refl, none, some, [], ◌∷◌, map}
use mozza.Interview.{local, create_default_service_state}
use mozza.Interview.Steps.{
  InterviewQuestion, question, both, get_active_steps, get_next_step, get_previous_step,
}

abbrev networking : InterviewQuestion
networking = question "networking" 4 "Where’s the entrance?" both none

abbrev place_order : InterviewQuestion
place_order = question "place-order" 1 "What are you ordering?" both none

local_steps :
    map (λ s. s.step_number) (get_active_steps create_default_service_state local)
    ≡ 1 ∷ 4 ∷ 5 ∷ 6 ∷ 7 ∷ 8 ∷ 9 ∷ []
unfolding get_active_steps
local_steps = refl

skips : get_next_step 1 create_default_service_state local ≡ some networking
unfolding get_next_step
skips = refl

returns : get_previous_step 4 create_default_service_state local ≡ some place_order
unfolding get_previous_step
returns = refl
