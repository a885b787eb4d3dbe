-- ===== src/Order/Navigation/Tests.antt =====
-- A walk through the wizard, and the theorems about it at concrete orders.
use mozza.Prelude.{◌≢◌, refl, List, [], ◌∷◌, arith, eq_iff, inr}
use mozza.Order.Slices as Slices
use mozza.Order.Navigation.{
  Order, ImageAlias, Template, initial, go_next, handle_imported_recipe, handle_template_select,
}
use mozza.Order.Navigation.Range.{
  IsSound, Move, pick_alias, next, back, edit_slices, edit_or_reset, edit_recipe, perform_moves,
  perform_moves-IsSound,
}

abbrev nginx : ImageAlias
nginx = record { id = "a1"; name = "shop"; image_ref = "nginx:1" }

abbrev walk : List Move
walk =
    pick_alias nginx
    ∷ next
    ∷ edit_slices (Slices.toggle_visibility 0)
    ∷ next
    ∷ edit_or_reset
    ∷ edit_recipe "App: mine"
    ∷ back
    ∷ []

IsSound-initial : IsSound initial
unfolding initial
IsSound-initial = record {
  first = omega arith;
  last = omega arith;
  slices = record { active = omega arith; copies = ((omega arith, omega arith), tt) };
  shown = inr refl;
}

perform_moves-IsSound_example : IsSound (perform_moves walk initial)
perform_moves-IsSound_example = perform_moves-IsSound walk initial IsSound-initial

abbrev imported : Order
imported = handle_imported_recipe "App: x" initial

not_empty : imported.imported_recipe ≢ ""
unfolding handle_imported_recipe initial
not_empty h = ground (arith, eq_iff "App: x" "")

abbrev blog : Template
blog = record { id = "t1"; name = "blog"; source = "App: {name}" }

abbrev customizing : Order
customizing = go_next (handle_template_select blog initial)

not_blank : blog.source ≢ ""
not_blank h = ground (arith, eq_iff "App: {name}" "")
