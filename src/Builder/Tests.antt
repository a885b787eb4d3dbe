-- ===== src/Builder/Tests.antt =====
-- A canvas with an application and its database, and the theorems about canvases at it.
use mozza.Prelude.{
  ℕ, ℤ, pos, negsuc, ◌≡◌, refl, Bool, true, false, Option, none, some, List, [], ◌∷◌, String,
  length, All,
}
use mozza.Builder.{web, database, CanvasBlock, CanvasState, Canvas, rename, set_version, new_block}
use mozza.Builder.Linked.{IsSound, Action, drop, update, connect, perform_all}
use mozza.Builder.Linked.Board.{view, play_all, view-perform_all}
use mozza.Builder.Linked.Invariant.{perform_all-IsSound}
use mozza.Builder.Source.{generate_source}

abbrev empty_canvas : Canvas
empty_canvas = record {
  state = record { blocks = []; connections = [] };
  selected_id = none;
  next_block_id = 1;
}

-- Drops a database and a web service, and lets the service need the database.
abbrev edits : List Action
edits =
    drop 7 database (pos 0) (negsuc 4)
    ∷ update (rename "shop-db")
    ∷ update (set_version "16")
    ∷ drop 7 web (pos 90) (pos 0)
    ∷ update (rename "shop")
    ∷ connect "block-7-1"
    ∷ connect "block-7-1"
    ∷ []

IsSound-empty : IsSound empty_canvas.state
IsSound-empty = record { linked = refl; distinct = refl }

perform_all-IsSound_example : IsSound (perform_all edits empty_canvas).state
perform_all-IsSound_example = perform_all-IsSound edits empty_canvas IsSound-empty

abbrev shop : CanvasBlock
shop = new_block "a" web (pos 0) (pos 0)

abbrev two_blocks : CanvasState
two_blocks = record {
  blocks = shop ∷ new_block "b" database (pos 0) (pos 0) ∷ [];
  connections = record { from = "a"; to = "b" } ∷ [];
}

source_of_two :
    generate_source two_blocks (some "Shop")
    ≡ "App: Shop\n\nweb:\n  from image nginx:alpine\n  open to the public on port 8080\n  health check /healthz\n  run 1 copy\n  needs database\n\ndatabase:\n  from image postgres:16-alpine\n  postgres\n  run 1 copy\n"
unfolding generate_source new_block mozza.Prelude.template mozza.Prelude.decimal_int
    mozza.Prelude.decimal mozza.Prelude.join
source_of_two = refl

IsSound-two : IsSound two_blocks
unfolding new_block
IsSound-two = record { linked = refl; distinct = refl }

view-perform_all_example :
    view (perform_all edits empty_canvas) ≡ play_all edits (view empty_canvas)
view-perform_all_example = view-perform_all edits empty_canvas
