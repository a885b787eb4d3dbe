-- ===== src/DeployProgress/Touched.antt =====
-- ui/src/components/deploy/DeployProgress.tsx: the steps that a log has reached stand before those that it
-- has not reached.
use mozza.Prelude.{
  ℕ, suc, ◌≡◌, refl, ap, ◌∙◌, Bool, true, false, not, ◌&&◌, Option, none, some, List, [], ◌∷◌,
  codes, ◌++◌, ◌-◌, filter, split_lines, map, String, ltb, nat_eq, arith, Bool-cases, Option-cases,
  inl, inr, if◌then◌else◌,
}
use mozza.Recipe.{given}
use mozza.DeployProgress.{
  StepState, pending, active, done, error, StepInfo, mark_from, mark, mark_all_done, fail,
  mark_failed, parse_steps, parse_step, parse_all, DeployProgress, set_final_status, ProgressEvent,
  after_event, after_events, first_progress, step_number, plain_step_labels, pizza_step_labels,
  with_log, with_url, with_status, on_data, on_done, on_error, on_timer, on_interval, on_second,
  on_toggle_logs, on_answer, is_final,
}

abbrev is_pending : StepState → Bool
is_pending pending = true
is_pending active = false
is_pending done = false
is_pending error = false

abbrev pub all_pending : List StepInfo → Bool
all_pending [] = true
all_pending (s ∷ ss) = is_pending s.status && all_pending ss

-- No step has been reached after one that has not.
abbrev pub touched_first : List StepInfo → Bool
touched_first [] = true
touched_first (s ∷ ss) = if is_pending s.status then all_pending ss else touched_first ss

abbrev pub labels : List StepInfo → List String
labels ss = map (λ s. s.label) ss

touched_first-all_pending : (ss : List StepInfo) → all_pending ss ≡ true → touched_first ss ≡ true
touched_first-all_pending [] h = refl
touched_first-all_pending (s ∷ ss) h = ground arith

mark_from-later : (n i : ℕ) (ss : List StepInfo) → ltb i n ≡ false → mark_from n i ss ≡ ss
mark_from-later n i [] h = refl
mark_from-later n i (s ∷ ss) h = ground (arith, mark_from-later n (suc i) ss)

touched_first-tail :
    (s : StepInfo) (ss : List StepInfo) → touched_first (s ∷ ss) ≡ true → touched_first ss ≡ true
touched_first-tail s ss h = ground (arith, touched_first-all_pending ss)

touched_first-mark_from :
    (n i : ℕ) (ss : List StepInfo)
    → touched_first ss ≡ true
    → touched_first (mark_from n i ss) ≡ true
touched_first-mark_from n i [] h = refl
touched_first-mark_from n i (s ∷ ss) h = ground (
  arith,
  touched_first-mark_from n (suc i) ss (touched_first-tail s ss h),
  mark_from-later n (suc i) ss,
  touched_first-tail s ss h,
)

touched_first-mark_all_done : (ss : List StepInfo) → touched_first (mark_all_done ss) ≡ true
touched_first-mark_all_done [] = refl
touched_first-mark_all_done (s ∷ ss) = touched_first-mark_all_done ss

is_pending-fail : (x : StepState) → is_pending (fail x) ≡ is_pending x
unfolding fail
is_pending-fail pending = refl
is_pending-fail active = refl
is_pending-fail done = refl
is_pending-fail error = refl

all_pending-mark_failed : (ss : List StepInfo) → all_pending (mark_failed ss) ≡ all_pending ss
all_pending-mark_failed [] = refl
all_pending-mark_failed (s ∷ ss) = rw (is_pending-fail s.status, all_pending-mark_failed ss) refl

touched_first-mark_failed : (ss : List StepInfo) → touched_first (mark_failed ss) ≡ touched_first ss
touched_first-mark_failed [] = refl
touched_first-mark_failed (s ∷ ss) =
    rw (is_pending-fail s.status, all_pending-mark_failed ss, touched_first-mark_failed ss) refl

touched_first-mark :
    (m : Option ℕ) (ss : List StepInfo) → touched_first ss ≡ true → touched_first (mark m ss) ≡ true
touched_first-mark none ss h = h
touched_first-mark (some n) ss h = touched_first-mark_from n 0 ss h

touched_first-parse_steps :
    (line : String) (ss : List StepInfo)
    → touched_first ss ≡ true
    → touched_first (parse_steps line ss) ≡ true
unfolding parse_steps
touched_first-parse_steps line ss h =
    let marked = mark (step_number (codes line)) ss in
    let m : touched_first marked ≡ true = touched_first-mark (step_number (codes line)) ss h in
    ground (
      arith,
      m,
      touched_first-mark_all_done marked,
      touched_first-mark_failed (mark_all_done marked),
      touched_first-mark_failed marked,
    )

labels-mark_from : (n i : ℕ) (ss : List StepInfo) → labels (mark_from n i ss) ≡ labels ss
labels-mark_from n i [] = refl
labels-mark_from n i (s ∷ ss) = ground (arith, labels-mark_from n (suc i) ss)

labels-mark : (m : Option ℕ) (ss : List StepInfo) → labels (mark m ss) ≡ labels ss
labels-mark none ss = refl
labels-mark (some n) ss = labels-mark_from n 0 ss

labels-mark_all_done : (ss : List StepInfo) → labels (mark_all_done ss) ≡ labels ss
labels-mark_all_done [] = refl
labels-mark_all_done (s ∷ ss) = ap (λ ls. s.label ∷ ls) (labels-mark_all_done ss)

labels-mark_failed : (ss : List StepInfo) → labels (mark_failed ss) ≡ labels ss
labels-mark_failed [] = refl
labels-mark_failed (s ∷ ss) = ap (λ ls. s.label ∷ ls) (labels-mark_failed ss)

labels-parse_steps : (line : String) (ss : List StepInfo) → labels (parse_steps line ss) ≡ labels ss
unfolding parse_steps
labels-parse_steps line ss =
    let marked = mark (step_number (codes line)) ss in
    ground (
      arith,
      labels-mark (step_number (codes line)) ss,
      labels-mark_all_done marked,
      labels-mark_failed (mark_all_done marked),
      labels-mark_failed marked,
    )

-- The names of the steps, and that those reached stand first.
abbrev pub InOrder : List String → DeployProgress → Type 0
InOrder ls p = (labels p.steps ≡ ls) × (touched_first p.steps ≡ true)

parse_step-InOrder :
    (ls : List String) (line : String) (p : DeployProgress)
    → InOrder ls p
    → InOrder ls (parse_step line p)
unfolding parse_step
parse_step-InOrder ls line p h =
    (labels-parse_steps line p.steps ∙ h.0, touched_first-parse_steps line p.steps h.1)

parse_all-InOrder :
    (ls lines : List String) (p : DeployProgress) → InOrder ls p → InOrder ls (parse_all lines p)
parse_all-InOrder ls [] p h = h
parse_all-InOrder ls (l ∷ lines) p h =
    parse_all-InOrder ls lines (parse_step l p) (parse_step-InOrder ls l p h)

steps-set_final_status :
    (status : String) (p : DeployProgress) → (set_final_status status p).steps ≡ p.steps
unfolding set_final_status
steps-set_final_status status p = ground arith

set_final_status-InOrder :
    (ls : List String) (status : String) (p : DeployProgress)
    → InOrder ls p
    → InOrder ls (set_final_status status p)
set_final_status-InOrder ls status p h = rw (steps-set_final_status status p) h

with_log-InOrder :
    (ls : List String) (log : String) (p : DeployProgress)
    → InOrder ls p
    → InOrder ls (with_log log p)
with_log-InOrder ls log p h =
    let lines = filter given (split_lines log) in
    elim (Bool-cases (given log)) [
      | inl y ↦ rw y (parse_all-InOrder ls lines (record p { log_lines = lines }) h)
      | inr n ↦ rw n h
    ]

with_url-InOrder :
    (ls : List String) (u : Option String) (p : DeployProgress)
    → InOrder ls p
    → InOrder ls (with_url u p)
with_url-InOrder ls none p h = h
with_url-InOrder ls (some u) p h = elim (Bool-cases (given u)) [ inl y ↦ rw y h | inr n ↦ rw n h ]

with_status-InOrder :
    (ls : List String) (s : Option String) (p : DeployProgress)
    → InOrder ls p
    → InOrder ls (with_status s p)
with_status-InOrder ls none p h = h
with_status-InOrder ls (some s) p h =
    set_final_status-InOrder ls s (record p { completed = p.completed ++ s ∷ [] }) h

after_event-InOrder :
    (ls : List String) (e : ProgressEvent) (p : DeployProgress)
    → InOrder ls p
    → InOrder ls (after_event e p)
unfolding after_event
after_event-InOrder ls (on_data line) p h = elim (Bool-cases p.streaming) [
  | inl y ↦ rw y (parse_step-InOrder ls line (record p { log_lines = p.log_lines ++ line ∷ [] }) h)
  | inr n ↦ rw n h
]
after_event-InOrder ls (on_done s) p h = elim (Bool-cases p.streaming) [
  | inl y ↦ rw y (
      set_final_status-InOrder ls s
        (record p { streaming = false; completed = p.completed ++ s ∷ [] }) h)
  | inr n ↦ rw n h
]
after_event-InOrder ls on_error p h = h
after_event-InOrder ls on_timer p h = elim (Option-cases p.timer) [
  | inl e ↦ rw e h
  | inr (c, e) ↦ rw e h
]
after_event-InOrder ls on_interval p h =
    elim (Bool-cases (p.sse_error && not (is_final p.final_status))) [
      | inl y ↦ rw y h
      | inr n ↦ rw n h
    ]
after_event-InOrder ls on_second p h = elim (Bool-cases (is_final p.final_status)) [
  | inl y ↦ rw y h
  | inr n ↦ rw n h
]
after_event-InOrder ls on_toggle_logs p h = h
after_event-InOrder ls (on_answer none) p h = h
after_event-InOrder ls (on_answer (some d)) p h = elim (Bool-cases (ltb 0 p.asking)) [
  | inl y ↦
      let q : DeployProgress = record p { asking = p.asking - 1 } in
      rw y (
        with_status-InOrder ls d.finished (with_url d.url (with_log d.log q))
          (with_url-InOrder ls d.url (with_log d.log q) (with_log-InOrder ls d.log q h)))
  | inr n ↦ rw n h
]

after_events-InOrder_from :
    (ls : List String) (es : List ProgressEvent) (p : DeployProgress)
    → InOrder ls p
    → InOrder ls (after_events es p)
after_events-InOrder_from ls [] p h = h
after_events-InOrder_from ls (e ∷ es) p h =
    after_events-InOrder_from ls es (after_event e p) (after_event-InOrder ls e p h)

-- Whatever lines, answers and errors arrive, in whatever order, the view keeps its five steps with their
-- names, and no step that has been reached (under way, done or failed) stands after one that is pending.
pub after_events-InOrder :
    (use_pizza_metaphor : Bool) (es : List ProgressEvent)
    → let p = after_events es (first_progress use_pizza_metaphor) in
      (labels p.steps ≡ (if use_pizza_metaphor then pizza_step_labels else plain_step_labels))
      × (touched_first p.steps ≡ true)
unfolding first_progress
after_events-InOrder false es =
    after_events-InOrder_from plain_step_labels es (first_progress false) (refl, refl)
after_events-InOrder true es =
    after_events-InOrder_from pizza_step_labels es (first_progress true) (refl, refl)
