-- ===== src/Terminal/Connection/Retry.antt =====
-- How often, and after which delays, DeployTerminal.tsx connects again.
use Prim.Native.Nat.{◌≤◌, ◌<◌}
use mozza.Prelude.{
  ℕ, zero, suc, ◌+◌, ◌^◌, ◌≡◌, ◌≢◌, ◌⊎◌, refl, Bool, true, false, ◌&&◌, Option, none, some, arith,
  leb, inl, inr, nat_eq,
}
use mozza.Terminal.{
  Terminal, running, failed, closed, initial, update_step, handle_message, handle_complete,
  on_message, Received, parsed, plain, reconnect_max_ms,
}
use mozza.Terminal.Connection.{
  Step, opens, receives, closes, fires, answers, unmounts, Reachable, starts, goes, delay,
  schedule_reconnect, on_open, on_close, on_timer, on_build_status, unmount, Final, BuildData,
  final_status,
}

-- A delay between one and eight seconds.
abbrev pub in_range : Option ℕ → Bool
in_range none = true
in_range (some d) = leb 1000 d && leb d 8000

-- What holds of a terminal at any time: its counter of attempts is at most ten; a socket or a timer, never
-- both; a delay in its range.
pub record IsSound (t : Terminal) : Type 0 where
  pub tries : t.attempt ≤ 10
  pub alone : (t.socket ≡ closed) ⊎ (t.timer ≡ none)
  pub waits : in_range t.timer ≡ true

one_le-pow : (n : ℕ) → 1 ≤ 2 ^ n
one_le-pow zero = omega arith
one_le-pow (suc n) = omega (arith, one_le-pow n)

delay-in_range : (n : ℕ) → in_range (some (delay n)) ≡ true
unfolding delay
delay-in_range n = ground (arith, one_le-pow n)

-- Messages touch neither the socket nor its timer.
abbrev Same : Terminal → Terminal → Type 0
Same t u = (u.attempt ≡ t.attempt) × ((u.socket ≡ t.socket) × (u.timer ≡ t.timer))

message-Same : (now : ℕ) (m : Received) (t : Terminal) → Same t (on_message now m t)
unfolding on_message handle_message handle_complete update_step
message-Same now (plain text) t = (refl, (refl, refl))
message-Same now (parsed msg) t = ground arith

answer-Same : (now : ℕ) (d : BuildData) (t : Terminal) → Same t (on_build_status now d t)
unfolding on_build_status
answer-Same now d t = ground arith

Same-IsSound : (t u : Terminal) → Same t u → IsSound t → IsSound u
Same-IsSound t u (a, (s, k)) v = record {
  tries = rw a v.tries;
  alone = rw (s, k) v.alone;
  waits = rw k v.waits;
}

on_close-IsSound : (t : Terminal) → t.socket ≢ closed → IsSound t → IsSound (on_close t)
unfolding on_close schedule_reconnect
on_close-IsSound t live v = record {
  tries = ground (arith, v.tries);
  alone = ground arith;
  waits = ground (arith, v.waits, delay-in_range t.attempt);
}

Step-IsSound : {t u : Terminal} → Step t u → IsSound t → IsSound u
unfolding on_open on_timer unmount
Step-IsSound (opens t op) v = record {
  tries = omega arith;
  alone = ground (arith, v.alone);
  waits = v.waits;
}
Step-IsSound (receives t now m op) v = Same-IsSound t _ (message-Same now m t) v
Step-IsSound (closes t live) v = on_close-IsSound t live v
Step-IsSound (fires t d due) v = record { tries = v.tries; alone = inr refl; waits = refl }
Step-IsSound (answers t now d) v = Same-IsSound t _ (answer-Same now d t) v
Step-IsSound (unmounts t) v = record { tries = v.tries; alone = inl refl; waits = refl }

-- In every state a terminal comes into, its counter of attempts, which a socket that opens sets back to
-- zero, is at most ten; where it waits for the next attempt, it is for between one and eight seconds; and
-- it does not wait while it has a socket.
pub Reachable-IsSound : (t : Terminal) → Reachable t → IsSound t
unfolding initial
Reachable-IsSound t (starts url) = record { tries = omega arith; alone = inr refl; waits = refl }
Reachable-IsSound u (goes {t} r s) = Step-IsSound s (Reachable-IsSound t r)

-- One failed attempt: the socket is closed, and the timer that is set then runs out.
abbrev pub failed_attempt : Terminal → Terminal
failed_attempt t = on_timer (on_close t)

abbrev pub failed_attempts : ℕ → Terminal → Terminal
failed_attempts zero t = t
failed_attempts (suc n) t = failed_attempts n (failed_attempt t)

-- A terminal that never gets through gives up: where the build has not completed, once the
-- attempts that are left of the ten have failed, the next socket that is closed makes the build
-- count as failed.
pub failed_attempts_give_up :
    (n : ℕ) (t : Terminal)
    → t.completed ≡ false
    → t.attempt + n ≡ 10
    → (on_close (failed_attempts n t)).status ≡ failed
unfolding on_close schedule_reconnect on_timer
failed_attempts_give_up zero t going tries = ground arith
failed_attempts_give_up (suc n) t going tries =
    failed_attempts_give_up n (failed_attempt t) (ground arith) (ground arith)

-- Until then, it goes on trying: there is a timer after each socket that is closed.
pub on_close-timer :
    (t : Terminal)
    → t.completed ≡ false
    → t.attempt < 10
    → ((on_close t).timer ≡ some (delay t.attempt)) × ((on_close t).status ≡ t.status)
unfolding on_close schedule_reconnect
on_close-timer t going tries = (ground arith, ground arith)

-- An answer of the server that ends the build sets its status; once a socket opens after it, the
-- build is shown as running, and the socket that is closed leaves it so.
pub ended_shown_running :
    (now : ℕ) (d : BuildData) (f : Final) (t : Terminal)
    → d.status ≡ some f
    → ((on_build_status now d t).status ≡ final_status f)
      × ((on_close (on_open (on_build_status now d t))).status ≡ running)
unfolding on_build_status on_open on_close
ended_shown_running now d f t ended = (ground arith, ground arith)

-- The wait for the next attempt doubles up to eight seconds, and never gets shorter.
pub delay_mono : (n : ℕ) → (delay n ≤ delay (suc n)) × (delay n ≤ reconnect_max_ms)
unfolding delay
delay_mono n = (omega arith, omega arith)
