-- ===== src/Framework/Steps.antt =====
-- The steps of the framework wizard, for a user who waits for the server and for one who does not.
use Prim.Native.Nat.{◌≤◌}
use mozza.Prelude.{
  suc, ◌-◌, ◌≡◌, refl, ap, ◌∙◌, ◌⊎◌, Bool, true, false, ◌&&◌, Option, none, List, [], ◌∷◌, String,
  arith, ◌==◌, nat_eq, string_eq, length, get_elem?,
}
use mozza.Framework.{
  DetectResult, questions_for, Framework, question_count, is_preview_step, press_next,
  generation_done, press_back, answer, WizardEvent, next, back, choose, save, arrived, handle_event,
  handle_events, Generated,
}

get_elem?-beyond {ℓ} : {A : Type ℓ} (xs : List A) → get_elem? xs (suc (length xs)) ≡ none
get_elem?-beyond [] = refl
get_elem?-beyond (x ∷ xs) = get_elem?-beyond xs

module _ (d : DetectResult) (app_name : String) where
  -- The buttons are left alone while the server is asked.
  abbrev pub waits : List (WizardEvent d app_name) → Framework → Bool
  waits [] w = true
  waits (next ∷ es) w = w.pending == 0 && waits es (handle_event d app_name next w)
  waits (back ∷ es) w = w.pending == 0 && waits es (handle_event d app_name back w)
  waits (e ∷ es) w = waits es (handle_event d app_name e w)

  -- A question or the preview; and the server is asked from the last question, once.
  pub record IsOnStep (w : Framework) : Type 0 where
    pub within : w.current_step ≤ question_count d app_name
    pub waiting :
        (w.pending ≡ 0) ⊎ (w.pending ≡ 1) × (suc w.current_step ≡ question_count d app_name)

  next-IsOnStep :
      (w : Framework) → w.pending ≡ 0 → IsOnStep w → IsOnStep (handle_event d app_name next w)
  unfolding handle_event press_next
  next-IsOnStep w idle v = record {
    within = ground (arith, v.within);
    waiting = ground (arith, v.waiting);
  }

  back-IsOnStep :
      (w : Framework) → w.pending ≡ 0 → IsOnStep w → IsOnStep (handle_event d app_name back w)
  unfolding handle_event press_back
  back-IsOnStep w idle v = record {
    within = ground (arith, v.within);
    waiting = ground (arith, v.waiting);
  }

  save-IsOnStep :
      (r : String) (w : Framework) → IsOnStep w → IsOnStep (handle_event d app_name (save r) w)
  unfolding handle_event
  save-IsOnStep r w v = record {
    within = ground (arith, v.within);
    waiting = ground (arith, v.waiting);
  }

  answer-step : (v : String) (w : Framework) → (answer d app_name v w).current_step ≡ w.current_step
  unfolding answer
  answer-step v w = ground arith

  answer-pending : (v : String) (w : Framework) → (answer d app_name v w).pending ≡ w.pending
  unfolding answer
  answer-pending v w = ground arith

  choose-IsOnStep :
      (r : String) (w : Framework) → IsOnStep w → IsOnStep (handle_event d app_name (choose r) w)
  unfolding handle_event
  choose-IsOnStep r w v = record {
    within = rw (answer-step r w) v.within;
    waiting = rw (answer-step r w, answer-pending r w) v.waiting;
  }

  arrived-IsOnStep :
      (g : Option Generated) (w : Framework)
      → IsOnStep w
      → IsOnStep (handle_event d app_name (arrived g) w)
  unfolding handle_event generation_done
  arrived-IsOnStep g w v = record {
    within = ground (arith, v.within, v.waiting);
    waiting = ground (arith, v.within, v.waiting);
  }

  -- In a wizard that shows a question or the preview, and that waits for the server at most once,
  -- from the last question, this stays so for a user who leaves Next and Back alone while the
  -- server is asked, whether the server answers or fails.
  pub handle_events-IsOnStep :
      (es : List (WizardEvent d app_name)) (w : Framework)
      → waits es w ≡ true
      → IsOnStep w
      → IsOnStep (handle_events d app_name es w)
  handle_events-IsOnStep [] w h v = v
  handle_events-IsOnStep (next ∷ es) w h v =
      handle_events-IsOnStep es (handle_event d app_name next w) (ground arith)
        (next-IsOnStep w (ground arith) v)
  handle_events-IsOnStep (back ∷ es) w h v =
      handle_events-IsOnStep es (handle_event d app_name back w) (ground arith)
        (back-IsOnStep w (ground arith) v)
  handle_events-IsOnStep (choose r ∷ es) w h v =
      handle_events-IsOnStep es (handle_event d app_name (choose r) w) h (choose-IsOnStep r w v)
  handle_events-IsOnStep (save r ∷ es) w h v =
      handle_events-IsOnStep es (handle_event d app_name (save r) w) h (save-IsOnStep r w v)
  handle_events-IsOnStep (arrived g ∷ es) w h v =
      handle_events-IsOnStep es (handle_event d app_name (arrived g) w) h (arrived-IsOnStep g w v)

  next-last :
      (w : Framework)
      → suc w.current_step ≡ question_count d app_name
      → handle_event d app_name next w ≡ record w { generating = true; pending = suc w.pending }
  unfolding handle_event press_next
  next-last w last = ground arith

  arrived-step :
      (g : Option Generated) (w : Framework)
      → (w.pending == 0) ≡ false
      → (handle_event d app_name (arrived g) w).current_step ≡ suc w.current_step
  unfolding handle_event generation_done
  arrived-step g w waiting = ground arith

  arrived-pending :
      (g : Option Generated) (w : Framework)
      → (handle_event d app_name (arrived g) w).pending ≡ w.pending - 1
  unfolding handle_event generation_done
  arrived-pending g w = ground arith

  step-twice :
      (w : Framework) (g h : Option Generated)
      → suc w.current_step ≡ question_count d app_name
      → (handle_events d app_name (next ∷ next ∷ arrived g ∷ arrived h ∷ []) w).current_step
        ≡ suc (question_count d app_name)
  step-twice w g h last =
      let asked_once = record w { generating = true; pending = suc w.pending } in
      let asked_twice = record w { generating = true; pending = suc (suc w.pending) } in
      rw (next-last w last, next-last asked_once last)
        (arrived-step h (handle_event d app_name (arrived g) asked_twice)
            (rw (arrived-pending g asked_twice) (ground arith))
          ∙ ap suc (arrived-step g asked_twice (ground arith) ∙ last))

  -- A user who presses Next twice at the last question, before the server answers the two calls,
  -- is taken past the preview, to a step that shows nothing.
  pub handle_events-twice :
      (w : Framework) (g h : Option Generated)
      → suc w.current_step ≡ question_count d app_name
      → let past = handle_events d app_name (next ∷ next ∷ arrived g ∷ arrived h ∷ []) w in
        (is_preview_step d app_name past ≡ false)
        × (get_elem? (questions_for d) past.current_step ≡ none)
  handle_events-twice w g h last = (
    rw (step-twice w g h last) (ground arith),
    rw (step-twice w g h last) (get_elem?-beyond (questions_for d)),
  )
