-- ===== src/Terminal/Connection/Tests.antt =====
-- A terminal that loses its connection, and the theorems about connecting again at it.
use mozza.Prelude.{◌≡◌, refl, none, some, arith}
use mozza.Terminal.{Terminal, failed, initial}
use mozza.Terminal.Connection.{
  Reachable, starts, goes, closes, fires, opens, on_close, on_timer, on_open, schedule_reconnect,
  delay, BuildData, succeeded,
}
use mozza.Terminal.Connection.Retry.{
  IsSound, Reachable-IsSound, failed_attempts, failed_attempts_give_up,
}

-- The first connection fails, and the second one opens.
again : Terminal
again = on_open (on_timer (on_close (initial "")))

Reachable-again : Reachable again
unfolding again on_timer on_close schedule_reconnect delay initial on_open
Reachable-again =
    goes (goes (goes (starts "") (closes _ (ground arith))) (fires _ 1000 refl)) (opens _ refl)

Reachable-IsSound_example : IsSound again
Reachable-IsSound_example = Reachable-IsSound again Reachable-again

failed_attempts_give_up_example : (on_close (failed_attempts 10 (initial ""))).status ≡ failed
unfolding initial
failed_attempts_give_up_example = failed_attempts_give_up 10 (initial "") refl refl

abbrev built : BuildData
built = record { status = some succeeded; logs = some "Done"; image_tag = none }
