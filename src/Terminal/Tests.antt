-- ===== src/Terminal/Tests.antt =====
-- Messages of a concrete build, and the theorems about messages at them.
use mozza.Prelude.{pos, ◌≡◌, refl, none, some, string_eq, nat_eq}
use mozza.Terminal.{StepStatus, step, WsMessage, initial, handle_message}
use mozza.Terminal.Progress.{status_at}

abbrev building : WsMessage
building = record { type = step; content = "Building"; step = some (pos 2); timestamp = none }

builds : status_at 1 (handle_message 7 building (initial "")) ≡ some StepStatus.success
unfolding handle_message initial
builds = refl
