-- ===== src/Terminal/Connection.antt =====
-- The effects of DeployTerminal.tsx: the status of the build, fetched once, and the web socket
-- with its attempts to connect again.
pub mod Retry
mod Tests
use mozza.Prelude.{
  ℕ, suc, ◌+◌, ◌*◌, ◌^◌, ◌-◌, min, ◌≡◌, ◌≢◌, Bool, true, false, not, ◌&&◌, ◌||◌, Option, none, some,
  List, [], ◌∷◌, ◌++◌, map, String, length, filter, ltb, leb, lower, codes, contains, split_lines,
  ◌==◌, nat_eq, string_eq, if◌then◌else◌,
}
use mozza.Terminal.{
  Terminal, BuildStatus, connecting, running, success, failed, StepStatus, DeployStepInfo, LogLine,
  Socket, closed, opening, opened, Received, on_message, found_or, reconnect_base_ms,
  reconnect_max_ms, reconnect_max_attempts, initial,
}

-- The status that ends a build, as the answer of the server names it.
pub data Final : Type 0 where
  succeeded broken : Final

-- What the server answers about a build; `status` is there if the build has ended.
pub record BuildData : Type 0 where
  pub status : Option Final
  pub logs : Option String
  pub image_tag : Option String

abbrev pub final_status : Final → BuildStatus
final_status succeeded = success
final_status broken = failed

abbrev pub is_error_line : String → Bool
is_error_line line = contains (lower line) (codes "error") || contains (lower line) (codes "fatal")

-- `data.logs.split("\n").filter(Boolean)`, line by line.
log_lines : ℕ → List String → List LogLine
log_lines now [] = []
log_lines now (line ∷ rest) =
    let more = log_lines now rest in
    if line == ""
    then more
    else record { text = line; is_error = is_error_line line; timestamp = now } ∷ more

-- The lines are replaced if the answer has a log that is not empty.
abbrev fetched_lines : ℕ → Option String → List LogLine → List LogLine
fetched_lines now none lines = lines
fetched_lines now (some logs) lines = if logs == "" then lines else log_lines now (split_lines logs)

-- All steps succeeded; for a failed build, all but the last one.
abbrev final_steps : Final → List DeployStepInfo → List DeployStepInfo
final_steps succeeded [] = []
final_steps succeeded (s ∷ ss) = record s { status = StepStatus.success } ∷ final_steps succeeded ss
final_steps broken [] = []
final_steps broken (s ∷ []) = record s { status = StepStatus.failed } ∷ []
final_steps broken (s ∷ r ∷ ss) =
    record s { status = StepStatus.success } ∷ final_steps broken (r ∷ ss)

-- `if (data.image_tag) setAppUrl(data.image_tag)`
abbrev tag_or : Option String → String → String
tag_or none url = url
tag_or (some tag) url = if tag == "" then url else tag

-- The answer of `fetchBuildStatus`.
pub on_build_status : ℕ → BuildData → Terminal → Terminal
unfolding log_lines
on_build_status now d t = elim d.status [
  | none ↦ t
  | some f ↦ record t {
    completed = true;
    status = final_status f;
    lines = fetched_lines now d.logs t.lines;
    steps = final_steps f t.steps;
    app_url = tag_or d.image_tag t.app_url;
    reported = t.reported ++ final_status f ∷ [];
  }
]

pub on_open : Terminal → Terminal
on_open t = record t { socket = opened; status = running; reconnecting = false; attempt = 0 }

-- `Math.min(RECONNECT_BASE_MS * Math.pow(2, attempt), RECONNECT_MAX_MS)`
pub delay : ℕ → ℕ
delay attempt = min (reconnect_base_ms * 2 ^ attempt) reconnect_max_ms

pub schedule_reconnect : Terminal → Terminal
unfolding delay
schedule_reconnect t =
    if t.completed
    then t
    else if leb reconnect_max_attempts t.attempt
    then record t { status = failed }
    else record t { reconnecting = true; timer = some (delay t.attempt); attempt = suc t.attempt }

pub on_close : Terminal → Terminal
unfolding schedule_reconnect
on_close t =
    let u : Terminal = record t { socket = closed } in
    if u.completed then u else schedule_reconnect u

-- The timer runs out: `connect` opens a socket, whatever has happened meanwhile.
pub on_timer : Terminal → Terminal
on_timer t = record t { timer = none; socket = opening }

-- The cleanup of the effect.
pub unmount : Terminal → Terminal
unmount t = record t { completed = true; socket = closed; timer = none }

-- One event of a terminal. A socket opens once and is closed once, and messages come through an
-- open one; an answer of the server comes at any time.
pub data Step : Terminal → Terminal → Type 0 where
  opens : (t : Terminal) → t.socket ≡ opening → Step t (on_open t)
  receives :
      (t : Terminal) (now : ℕ) (m : Received) → t.socket ≡ opened → Step t (on_message now m t)
  closes : (t : Terminal) → t.socket ≢ closed → Step t (on_close t)
  fires : (t : Terminal) (d : ℕ) → t.timer ≡ some d → Step t (on_timer t)
  answers : (t : Terminal) (now : ℕ) (d : BuildData) → Step t (on_build_status now d t)
  unmounts : (t : Terminal) → Step t (unmount t)

-- The states that a terminal can come into.
pub data Reachable : Terminal → Type 0 where
  starts : (app_url : String) → Reachable (initial app_url)
  goes : {t u : Terminal} → Reachable t → Step t u → Reachable u
