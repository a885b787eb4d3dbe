-- ===== src/DeployProgress.antt =====
-- ui/src/components/deploy/DeployProgress.tsx on `streamDeploymentLogs` of ui/src/api/client.ts: the
-- steps of a deployment, read off its log, which comes through a stream or by asking again.
pub mod Touched
pub mod Replay
mod Tests
use Prim.Native.Char.{Char, code}
use Prim.Native.String
use mozza.Prelude.{
  ℕ, zero, suc, ◌+◌, ◌-◌, Bool, true, false, not, ◌&&◌, ◌||◌, Option, none, some, List, [], ◌∷◌,
  ◌++◌, map, String, filter, codes, contains, begins_with, split_lines, trim, ltb, leb, ◌==◌,
  nat_eq, string_eq, if◌then◌else◌,
}
use mozza.Recipe.{given}

pub data StepState : Type 0 where
  pending active done error : StepState

pub record StepInfo : Type 0 where
  pub label : String
  pub status : StepState

abbrev pub plain_step_labels : List String
plain_step_labels =
    "Parsing recipe" ∷ "Building plan" ∷ "Validating plan" ∷ "Applying to your server"
    ∷ "Waiting for your app to start" ∷ []

abbrev pub pizza_step_labels : List String
pizza_step_labels =
    "Taking your order…" ∷ "Prepping ingredients…" ∷ "In the oven…" ∷ "Quality check…"
    ∷ "Ready for pickup!" ∷ []

abbrev pub first_steps : Bool → List StepInfo
first_steps use_pizza_metaphor =
    map (λ l. record { label = l; status = pending })
      (if use_pizza_metaphor then pizza_step_labels else plain_step_labels)

-- The digit of `Step (\d)/5:` at the start of a text.
abbrev digit_of : ℕ → List ℕ → Option ℕ
digit_of d rest =
    if leb b'0' d && leb d b'9' && begins_with rest (codes "/5:") then some (d - b'0') else none

abbrev step_here : List ℕ → Option ℕ
step_here (a ∷ b ∷ c ∷ d ∷ e ∷ n ∷ rest) =
    if begins_with (a ∷ b ∷ c ∷ d ∷ e ∷ []) (codes "Step ") then digit_of n rest else none
step_here _ = none

-- The first match of it in a line.
pub step_number : List ℕ → Option ℕ
step_number [] = none
step_number (c ∷ s) =
    let later = step_number s in elim (step_here (c ∷ s)) [ none ↦ later | some n ↦ some n ]

-- The steps before the one that is under way are done; those after it stay.
abbrev pub mark_from : ℕ → ℕ → List StepInfo → List StepInfo
mark_from n i [] = []
mark_from n i (s ∷ ss) =
    (if ltb (suc i) n
      then record s { status = done }
      else if suc i == n
      then record s { status = active }
      else s)
    ∷ mark_from n (suc i) ss

abbrev pub mark : Option ℕ → List StepInfo → List StepInfo
mark none steps = steps
mark (some n) steps = mark_from n 0 steps

-- The rest of the line, `(.+)`.
line_rest : String → String
line_rest String.[] = ""
line_rest (String.◌∷◌ c s) =
    let rest = line_rest s in if code c == 10 || code c == 13 then "" else String.◌∷◌ c rest

drop : ℕ → String → String
drop zero s = s
drop (suc n) String.[] = ""
drop (suc n) (String.◌∷◌ c s) = drop n s

-- `App accessible at: (.+)`
abbrev url_here : String → Option String
url_here s =
    if begins_with (codes s) (codes "App accessible at: ") && given (line_rest (drop 19 s))
    then some (line_rest (drop 19 s))
    else none

pub access_url_in : String → Option String
unfolding drop line_rest
access_url_in String.[] = none
access_url_in (String.◌∷◌ c s) =
    let later = access_url_in s in
    elim (url_here (String.◌∷◌ c s)) [ none ↦ later | some u ↦ some u ]

abbrev pub is_complete : String → Bool
is_complete line =
    contains (codes line) (codes "✓ Deploy complete")
    || contains (codes line) (codes "✓ Deploy applied")

abbrev pub mark_all_done : List StepInfo → List StepInfo
mark_all_done steps = map {B = StepInfo} (λ s. record s { status = done }) steps

pub fail : StepState → StepState
fail active = error
fail pending = pending
fail done = done
fail error = error

abbrev pub mark_failed : List StepInfo → List StepInfo
mark_failed steps = map {B = StepInfo} (λ s. record s { status = fail s.status }) steps

-- The steps after a line of the log.
pub parse_steps : String → List StepInfo → List StepInfo
unfolding step_number fail
parse_steps line steps =
    let marked = mark (step_number (codes line)) steps in
    let completed = if is_complete line then mark_all_done marked else marked in
    if contains (codes line) (codes "✗ Deploy failed") then mark_failed completed else completed

-- The state; whether the stream is open; the status at the time when the ten seconds of the timer
-- began, while it runs; the answers that polling waits for; and the calls of `onComplete`.
pub record DeployProgress : Type 0 where
  pub show_logs : Bool
  pub elapsed_seconds : ℕ
  pub steps : List StepInfo
  pub log_lines : List String
  pub final_status : Option String
  pub access_url : Option String
  pub sse_error : Bool
  pub streaming : Bool
  pub timer : Option (Option String)
  pub asking : ℕ
  pub completed : List String

pub first_progress : Bool → DeployProgress
first_progress use_pizza_metaphor = record {
  show_logs = false;
  elapsed_seconds = 0;
  steps = first_steps use_pizza_metaphor;
  log_lines = [];
  final_status = none;
  access_url = none;
  sse_error = false;
  streaming = true;
  timer = some none;
  asking = 0;
  completed = [];
}

abbrev url_after : Option String → Option String → Option String
url_after none old = old
url_after (some u) old = some (trim u)

-- `parseStep`
pub parse_step : String → DeployProgress → DeployProgress
unfolding access_url_in parse_steps
parse_step line p = record p {
  steps = parse_steps line p.steps;
  access_url = url_after (access_url_in line) p.access_url;
}

abbrev pub parse_all : List String → DeployProgress → DeployProgress
parse_all [] p = p
parse_all (l ∷ ls) p = parse_all ls (parse_step l p)

abbrev same_status : Option String → String → Bool
same_status none status = false
same_status (some old) status = old == status

-- `setFinalStatus`. The effect that holds the stream depends on the status: where that changes, the
-- stream is closed, and a new one is opened, with a new timer.
pub set_final_status : String → DeployProgress → DeployProgress
set_final_status status p =
    if same_status p.final_status status
    then p
    else record p { final_status = some status; streaming = true; timer = some (some status) }

-- A status counts as final unless it is missing or "".
abbrev pub is_final : Option String → Bool
is_final none = false
is_final (some status) = given status

-- What the server answers about a deployment: its log, "" where it has none, and, once it has
-- finished, its status.
pub record PolledDeployment : Type 0 where
  pub log : String
  pub url : Option String
  pub finished : Option String

-- The answer of a poll.
abbrev pub with_log : String → DeployProgress → DeployProgress
with_log log p =
    let lines = filter given (split_lines log) in
    if given log then parse_all lines (record p { log_lines = lines }) else p

abbrev pub with_url : Option String → DeployProgress → DeployProgress
with_url none p = p
with_url (some u) p = if given u then record p { access_url = some u } else p

abbrev pub with_status : Option String → DeployProgress → DeployProgress
with_status none p = p
with_status (some status) p =
    set_final_status status (record p { completed = p.completed ++ status ∷ [] })

-- The lines of the stream, its end and its errors; the timer; the intervals, of polling and of the seconds;
-- the button of the log; and the answers to polls,
-- `none` where one fails.
pub data ProgressEvent : Type 0 where
  on_data on_done : String → ProgressEvent
  on_error on_timer on_interval on_second on_toggle_logs : ProgressEvent
  on_answer : Option PolledDeployment → ProgressEvent

pub after_event : ProgressEvent → DeployProgress → DeployProgress
unfolding parse_step set_final_status
after_event (on_data line) p =
    if p.streaming then parse_step line (record p { log_lines = p.log_lines ++ line ∷ [] }) else p
after_event (on_done status) p =
    if p.streaming
    then set_final_status status
        (record p { streaming = false; completed = p.completed ++ status ∷ [] })
    else p
after_event on_error p = record p { streaming = false }
after_event on_timer p = elim p.timer [
  | none ↦ p
  | some captured ↦ record p {
    timer = none;
    sse_error = if is_final captured then p.sse_error else true;
  }
]
after_event on_interval p =
    if p.sse_error && not (is_final p.final_status) then record p { asking = suc p.asking } else p
after_event on_second p =
    if is_final p.final_status then p else record p { elapsed_seconds = suc p.elapsed_seconds }
after_event on_toggle_logs p = record p { show_logs = not p.show_logs }
after_event (on_answer none) p = record p { asking = p.asking - 1 }
after_event (on_answer (some d)) p =
    if ltb 0 p.asking
    then with_status d.finished
        (with_url d.url (with_log d.log (record p { asking = p.asking - 1 })))
    else p

abbrev pub after_events : List ProgressEvent → DeployProgress → DeployProgress
after_events [] p = p
after_events (e ∷ es) p = after_events es (after_event e p)
