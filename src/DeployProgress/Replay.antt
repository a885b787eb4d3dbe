-- ===== src/DeployProgress/Replay.antt =====
-- ui/src/components/deploy/DeployProgress.tsx on a stream that is opened again: the server of
-- internal/server/deploy_handlers.go sends a deployment that has finished once more.
use mathlib.Core.List.{append-nil, append_assoc}
use mozza.Prelude.{
  ◌≡◌, refl, ap, ◌∙◌, Bool, true, false, not, Option, none, some, List, [], ◌∷◌, ◌++◌, String,
  arith, string_eq, eq_refl,
}
use mozza.DeployProgress.{
  DeployProgress, first_progress, ProgressEvent, on_data, on_done, after_event, after_events,
  parse_step, set_final_status, same_status,
}

-- What a stream brings until it ends: its messages, and then the status. (For a deployment that has
-- finished, the server sends its log as one message.)
abbrev pub replayed : List String → String → List ProgressEvent
replayed [] status = on_done status ∷ []
replayed (l ∷ messages) status = on_data l ∷ replayed messages status

-- What the end of a stream makes of the state.
abbrev Ended : List String → String → DeployProgress → DeployProgress → Type 0
Ended messages status p r =
    (r.log_lines ≡ p.log_lines ++ messages)
    × (r.completed ≡ p.completed ++ status ∷ [])
    × (r.streaming ≡ not (same_status p.final_status status))

on_done-Ended :
    (status : String) (p : DeployProgress)
    → p.streaming ≡ true
    → Ended [] status p (after_event (on_done status) p)
unfolding after_event set_final_status
on_done-Ended status p h = (ground (arith, append-nil p.log_lines), ground arith, ground arith)

-- The state after a line.
abbrev read : String → DeployProgress → DeployProgress
read l p = parse_step l (record p { log_lines = p.log_lines ++ l ∷ [] })

on_data-read :
    (l : String) (p : DeployProgress) → p.streaming ≡ true → after_event (on_data l) p ≡ read l p
unfolding after_event
on_data-read l p h = ground arith

replayed-Ended :
    (messages : List String) (status : String) (p : DeployProgress)
    → p.streaming ≡ true
    → Ended messages status p (after_events (replayed messages status) p)
unfolding parse_step
replayed-Ended [] status p h = on_done-Ended status p h
replayed-Ended (l ∷ messages) status p h =
    let after : DeployProgress → DeployProgress = after_events (replayed messages status) in
    let e : after (after_event (on_data l) p) ≡ after (read l p) = ap after (on_data-read l p h) in
    let (a, b, c) = replayed-Ended messages status (read l p) h in
    (
      ap (λ q. q.log_lines) e ∙ a ∙ append_assoc p.log_lines (l ∷ []) messages,
      ap (λ q. q.completed) e ∙ b,
      ap (λ q. q.streaming) e ∙ c,
    )

final_status-replayed :
    (messages : List String) (status : String) (p : DeployProgress)
    → p.streaming ≡ true
    → p.final_status ≡ none
    → (after_events (replayed messages status) p).final_status ≡ some status
unfolding after_event parse_step set_final_status
final_status-replayed [] status p h e = ground arith
final_status-replayed (l ∷ messages) status p h e =
    ap (λ q. (after_events (replayed messages status) q).final_status) (on_data-read l p h)
    ∙ final_status-replayed messages status (read l p) h e

streaming-second :
    (status : String) (o : Option String) → o ≡ some status → not (same_status o status) ≡ false
streaming-second status none e = ground arith
streaming-second status (some s) e = ground (arith, eq_refl status)

-- A stream that is read to its end is opened again: once its end has been seen the first time, a new stream is
-- open; where that brings the same messages and the same end, no stream is left, every message is shown twice,
-- and the page has been told twice that the deployment is complete.
pub first_progress-replayed :
    (use_pizza_metaphor : Bool) (messages : List String) (status : String)
    → let once = after_events (replayed messages status) (first_progress use_pizza_metaphor) in
      let twice = after_events (replayed messages status) once in
      (once.log_lines ≡ messages)
      × (once.streaming ≡ true)
      × (twice.log_lines ≡ messages ++ messages)
      × (twice.completed ≡ status ∷ status ∷ [])
      × (twice.streaming ≡ false)
unfolding first_progress
first_progress-replayed use_pizza_metaphor messages status =
    let first : DeployProgress = first_progress use_pizza_metaphor in
    let once : DeployProgress = after_events (replayed messages status) first in
    let (a, b, c) = replayed-Ended messages status first refl in
    let (a2, b2, c2) = replayed-Ended messages status once c in
    let f : once.final_status ≡ some status =
      final_status-replayed messages status first refl refl in
    (
      a,
      c,
      a2 ∙ ap (λ ls. ls ++ messages) a,
      b2 ∙ ap (λ ss. ss ++ status ∷ []) b,
      c2 ∙ streaming-second status once.final_status f,
    )
