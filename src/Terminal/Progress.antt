-- ===== src/Terminal/Progress.antt =====
-- The steps of a build, and its outcome, as the messages of DeployTerminal.tsx change them.
use mathlib.Core.List.{append-nil}
use mozza.Prelude.{
  ℤ, ap, sym, ◌∙◌, ℕ, zero, suc, ◌+◌, ◌≡◌, ◌↔◌, refl, Bool, true, false, Option, none, some, List,
  [], ◌∷◌, ◌++◌, map, String, arith, get_elem?, any, ltb, find_url, eq_iff, Bool-cases, inl, inr,
  ◌==◌, nat_eq, string_eq, if◌then◌else◌,
}
use mozza.Terminal.{
  time_or, push_line, Terminal, StepStatus, active, BuildStatus, DeployStepInfo, MessageType, log,
  step, error, complete, update_valid, parsed, plain, WsMessage, Received, LogLine, update_from,
  update_step, valid_step, handle_complete, handle_message, on_message, all_done, plain,
  fail_active, parsed, update_valid,
}

abbrev status_of : Option DeployStepInfo → Option StepStatus
status_of none = none
status_of (some s) = some s.status

-- The status of step `k`, if there is one.
abbrev pub status_at : ℕ → Terminal → Option StepStatus
status_at k t = status_of (get_elem? t.steps k)

-- What step `k` comes to be when step `n` becomes active.
abbrev pub advanced : ℕ → ℕ → Option StepStatus → Option StepStatus
advanced n k none = none
advanced n k (some s) = some (if ltb k n then StepStatus.success else if k == n then active else s)

status-update_from :
    (ss : List DeployStepInfo) (i n k : ℕ)
    → status_of (get_elem? (update_from i n active ss) k)
      ≡ advanced n (i + k) (status_of (get_elem? ss k))
unfolding update_from
status-update_from [] i n k = refl
status-update_from (s ∷ ss) i n zero = ground arith
status-update_from (s ∷ ss) i n (suc k) = ground (arith, status-update_from ss (suc i) n k)

-- A message of a step makes that step, if it is one of the six, the active one, marks the steps
-- before it as done, and leaves the steps after it as they are.
pub status-step_message :
    (now n k : ℕ) (msg : WsMessage) (t : Terminal)
    → msg.type ≡ step
    → valid_step msg.step ≡ some n
    → status_at k (handle_message now msg t) ≡ advanced n k (status_at k t)
unfolding handle_message update_step
status-step_message now n k msg t is_step valid = ground (arith, status-update_from t.steps 0 n k)

abbrev pub is_active : DeployStepInfo → Bool
is_active s = elim s.status [ active ↦ true | _ ↦ false ]

complete-no_active :
    (b : Bool) (ss : List DeployStepInfo)
    → any is_active (map (if b then all_done else fail_active) ss) ≡ false
complete-no_active b [] = refl
complete-no_active true (s ∷ ss) = complete-no_active true ss
complete-no_active false (s ∷ ss) = ground (arith, complete-no_active false ss)

-- A build that completes has no active step left, and is a success exactly if the message says
-- "success".
pub handle_complete_lem :
    (content : String) (t : Terminal)
    → (any is_active (handle_complete content t).steps ≡ false)
      × (((handle_complete content t).status ≡ BuildStatus.success) ↔ (content ≡ "success"))
unfolding handle_complete
handle_complete_lem content t =
    (complete-no_active (content == "success") t.steps, ground (arith, eq_iff content "success"))

no_url : find_url "success" ≡ none
unfolding find_url
no_url = refl

-- A message that tells where the application runs counts as a failure of the build.
pub handle_complete-find_url :
    (content url : String) (t : Terminal)
    → find_url content ≡ some url
    → (handle_complete content t).status ≡ BuildStatus.failed
unfolding handle_complete
handle_complete-find_url content url t h = ground (arith, eq_iff content "success", no_url)

-- The text starts with the other one's elements.
abbrev pub IsPrefix : List LogLine → List LogLine → Type 0
IsPrefix xs ys = (more : List LogLine) × (ys ≡ xs ++ more)

update_valid-lines :
    (msg_step : Option ℤ) (x : StepStatus) (t : Terminal)
    → (update_valid msg_step x t).lines ≡ t.lines
unfolding update_step
update_valid-lines msg_step x t = ground arith

-- The line that a message adds.
abbrev line_of : ℕ → WsMessage → Bool → LogLine
line_of now msg is_error = record {
  text = msg.content;
  is_error = is_error;
  timestamp = time_or msg.timestamp now;
}

handle_message-IsPrefix :
    (now : ℕ) (msg : WsMessage) (t : Terminal) (ty : MessageType)
    → msg.type ≡ ty
    → IsPrefix t.lines (handle_message now msg t).lines
unfolding handle_message handle_complete
handle_message-IsPrefix now msg t log h = (line_of now msg false ∷ [], rw (h, handle_message) refl)
handle_message-IsPrefix now msg t step h = elim (Bool-cases (msg.content == "")) [
  | inl empty ↦ (
    [],
    rw (h, empty, handle_message) (update_valid-lines msg.step active t ∙ sym (append-nil t.lines)),
  )
  | inr text ↦ (
    line_of now msg false ∷ [],
    rw (h, text, handle_message)
        (ap (λ ls. ls ++ line_of now msg false ∷ []) (update_valid-lines msg.step active t)),
  )
]
handle_message-IsPrefix now msg t error h = (
  line_of now msg true ∷ [],
  rw (h, handle_message)
      (update_valid-lines msg.step StepStatus.failed
        (push_line msg.content true (time_or msg.timestamp now) t)),
)
handle_message-IsPrefix now msg t complete h =
    ([], rw (h, handle_message) (sym (append-nil t.lines)))

-- No message takes a line off the log.
pub on_message-IsPrefix :
    (now : ℕ) (m : Received) (t : Terminal) → IsPrefix t.lines (on_message now m t).lines
unfolding on_message
on_message-IsPrefix now (plain text) t = (_, refl)
on_message-IsPrefix now (parsed msg) t = handle_message-IsPrefix now msg t msg.type refl
