-- ===== src/DeployProgress/Tests.antt =====
-- Examples of the view of ui/src/components/deploy/DeployProgress.tsx.
use mozza.Prelude.{
  ◌≡◌, refl, Bool, true, false, Option, none, some, List, [], ◌∷◌, ◌++◌, String, map,
}
use mozza.DeployProgress.{
  StepState, pending, active, done, error, DeployProgress, first_progress, ProgressEvent, on_data,
  on_done, on_error, on_timer, on_interval, on_answer, after_events, plain_step_labels, step_number,
  parse_steps, parse_step, set_final_status, after_event, access_url_in, line_rest, drop, fail,
}
use mozza.DeployProgress.Touched.{labels, touched_first, after_events-InOrder}
use mozza.DeployProgress.Replay.{replayed, first_progress-replayed}

abbrev statuses : DeployProgress → List StepState
statuses p = map (λ s. s.status) p.steps

abbrev some_lines : List ProgressEvent
some_lines = on_data "Step 3/5: Validating plan" ∷ []

abbrev a_failure : List ProgressEvent
a_failure = some_lines ++ on_data "✗ Deploy failed: no image" ∷ on_done "failed" ∷ []

at_step :
    statuses (after_events some_lines (first_progress false))
    ≡ done ∷ done ∷ active ∷ pending ∷ pending ∷ []
unfolding first_progress after_event parse_step parse_steps step_number access_url_in line_rest drop
    fail set_final_status mozza.Prelude.contains mozza.Prelude.split_lines
at_step = refl

failed_at :
    statuses (after_events a_failure (first_progress false))
    ≡ done ∷ done ∷ error ∷ pending ∷ pending ∷ []
unfolding first_progress after_event parse_step parse_steps step_number access_url_in line_rest drop
    fail set_final_status mozza.Prelude.contains mozza.Prelude.split_lines
failed_at = refl

found_url : access_url_in "> App accessible at: http://localhost:80" ≡ some "http://localhost:80"
unfolding access_url_in line_rest drop mozza.Prelude.begins_with
found_url = refl

polled :
    (after_events
      (on_error
        ∷ on_timer
        ∷ on_interval
        ∷ on_answer (
            some (record {
              log = "Step 1/5: a\n\nStep 2/5: b";
              url = none;
              finished = some "success";
            }))
        ∷ [])
      (first_progress false)).log_lines
    ≡ "Step 1/5: a" ∷ "Step 2/5: b" ∷ []
unfolding first_progress after_event parse_step parse_steps step_number access_url_in line_rest drop
    fail set_final_status mozza.Prelude.contains mozza.Prelude.split_lines
polled = refl

after_events-InOrder_example :
    (labels (after_events a_failure (first_progress false)).steps ≡ plain_step_labels)
    × (touched_first (after_events a_failure (first_progress false)).steps ≡ true)
after_events-InOrder_example = after_events-InOrder false a_failure

abbrev a_log : List String
a_log = "Step 1/5: Parsing recipe" ∷ "✓ Deploy complete" ∷ []

first_progress-replayed_example :
    let once = after_events (replayed a_log "succeeded") (first_progress true) in
    let twice = after_events (replayed a_log "succeeded") once in
    (once.log_lines ≡ a_log)
    × (once.streaming ≡ true)
    × (twice.log_lines ≡ a_log ++ a_log)
    × (twice.completed ≡ "succeeded" ∷ "succeeded" ∷ [])
    × (twice.streaming ≡ false)
first_progress-replayed_example = first_progress-replayed true a_log "succeeded"
