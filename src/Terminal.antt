-- ===== src/Terminal.antt =====
-- ui/src/components/deploy/DeployTerminal.tsx: the log of a build, its steps, and the socket that
-- they come through. The texts of a log are cut at the ends of lines.
pub mod Progress
pub mod Connection
pub mod Url
mod Tests
use mozza.Prelude.{
  ℤ, pos, negsuc, ℕ, suc, ◌+◌, ◌*◌, ◌^◌, ◌-◌, min, ◌≡◌, ◌≢◌, Bool, true, false, not, ◌&&◌, ◌||◌,
  Option, none, some, List, [], ◌∷◌, ◌++◌, map, String, length, filter, ltb, leb, lower, codes,
  contains, find_url, split_lines, ◌==◌, nat_eq, string_eq, if◌then◌else◌,
}

pub data StepStatus : Type 0 where
  pending active success failed : StepStatus

-- The status of the whole build, as the terminal shows it.
pub data BuildStatus : Type 0 where
  connecting running success failed : BuildStatus

pub record DeployStepInfo : Type 0 where
  pub label : String
  pub status : StepStatus

pub record LogLine : Type 0 where
  pub text : String
  pub is_error : Bool
  pub timestamp : ℕ

pub data MessageType : Type 0 where
  step log error complete : MessageType

pub record WsMessage : Type 0 where
  pub type : MessageType
  pub content : String
  pub step : Option ℤ
  pub timestamp : Option ℕ

abbrev pub step_labels : List String
step_labels =
    "Clone repository" ∷ "Detect framework" ∷ "Build image" ∷ "Create containers" ∷ "Health check"
    ∷ "Route traffic" ∷ []

abbrev pub reconnect_base_ms : ℕ
reconnect_base_ms = 1000

abbrev pub reconnect_max_ms : ℕ
reconnect_max_ms = 8000

abbrev pub reconnect_max_attempts : ℕ
reconnect_max_attempts = 10

-- The web socket: none, one that is being opened, or an open one.
pub data Socket : Type 0 where
  closed opening opened : Socket

-- The component's state and references; `timer` is the delay of the connection that is due, and
-- `reported` holds the calls of `onComplete`.
pub record Terminal : Type 0 where
  pub lines : List LogLine
  pub steps : List DeployStepInfo
  pub status : BuildStatus
  pub reconnecting : Bool
  pub app_url : String
  pub attempt : ℕ
  pub completed : Bool
  pub socket : Socket
  pub timer : Option ℕ
  pub reported : List BuildStatus

-- The state after the first rendering, with its effects run.
pub initial : String → Terminal
initial app_url = record {
  lines = [];
  steps = map (λ label. record { label = label; status = pending }) step_labels;
  status = connecting;
  reconnecting = false;
  app_url = app_url;
  attempt = 0;
  completed = false;
  socket = opening;
  timer = none;
  reported = [];
}

-- `prev.map((s, i) => …)` of `updateStep`, the first step being number `i`.
update_from : ℕ → ℕ → StepStatus → List DeployStepInfo → List DeployStepInfo
update_from i step_index step_status [] = []
update_from i step_index step_status (s ∷ ss) =
    (if ltb i step_index
      then record s { status = success }
      else if i == step_index
      then record s { status = step_status }
      else s)
    ∷ update_from (suc i) step_index step_status ss

pub update_step : ℕ → StepStatus → Terminal → Terminal
unfolding update_from
update_step step_index step_status t = record t {
  steps = update_from 0 step_index step_status t.steps;
}

-- `msg.step !== undefined && msg.step >= 0 && msg.step < STEP_LABELS.length`
abbrev pub valid_step : Option ℤ → Option ℕ
valid_step none = none
valid_step (some (negsuc n)) = none
valid_step (some (pos n)) = if ltb n (length step_labels) then some n else none

abbrev pub update_valid : Option ℤ → StepStatus → Terminal → Terminal
update_valid msg_step step_status t = elim (valid_step msg_step) [
  | none ↦ t
  | some n ↦ update_step n step_status t
]

abbrev pub push_line : String → Bool → ℕ → Terminal → Terminal
push_line text is_error timestamp t = record t {
  lines = t.lines ++ record { text = text; is_error = is_error; timestamp = timestamp } ∷ [];
}

abbrev all_done : DeployStepInfo → DeployStepInfo
all_done s = record s { status = success }

abbrev fail_active : DeployStepInfo → DeployStepInfo
fail_active s = elim s.status [ active ↦ record s { status = failed } | _ ↦ s ]

-- `setAppUrl` if there is a match.
abbrev pub found_or : Option String → String → String
found_or none url = url
found_or (some u) url = u

abbrev pub outcome : Bool → BuildStatus
outcome true = success
outcome false = failed

-- The message of type "complete".
pub handle_complete : String → Terminal → Terminal
handle_complete content t =
    let is_success = content == "success" in
    record t {
      completed = true;
      steps = map (if is_success then all_done else fail_active) t.steps;
      status = outcome is_success;
      reported = t.reported ++ outcome is_success ∷ [];
      app_url = found_or (find_url content) t.app_url;
    }

-- `msg.timestamp ?? Date.now()`
abbrev pub time_or : Option ℕ → ℕ → ℕ
time_or none now = now
time_or (some ts) now = ts

pub handle_message : ℕ → WsMessage → Terminal → Terminal
unfolding update_step handle_complete
handle_message now msg t =
    let ts = time_or msg.timestamp now in
    elim msg.type [
      | log ↦ push_line msg.content false ts t
      | step ↦
          let u = update_valid msg.step active t in
          if msg.content == "" then u else push_line msg.content false ts u
      | error ↦ update_valid msg.step failed (push_line msg.content true ts t)
      | complete ↦ handle_complete msg.content t
    ]

-- What `JSON.parse` makes of the data of an event.
pub data Received : Type 0 where
  parsed : WsMessage → Received
  plain : String → Received

pub on_message : ℕ → Received → Terminal → Terminal
unfolding handle_message
on_message now (parsed msg) t = handle_message now msg t
on_message now (plain data_text) t = push_line data_text false now t
