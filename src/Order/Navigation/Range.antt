-- ===== src/Order/Navigation/Range.antt =====
-- What stays true of the order while the user goes through the steps, and where a step leads.
use Prim.Native.Nat.{◌≤◌}
use mozza.Prelude.{
  ◌≡◌, refl, ◌⊎◌, true, Option, List, [], ◌∷◌, String, arith, get_elem?, Option-cases, Bool-cases,
  inl, inr, ◌==◌, nat_eq, string_eq, if◌then◌else◌,
}
use mozza.Interview.{WizardState, ServiceInterviewState}
use mozza.Recipe.{set_image}
use mozza.Order.Slices.{has_image, perform, update_service, perform_all}
use mozza.Order.Slices as Slices
use mozza.Order.Slices.Valid.{IsValid, update_service-IsValid, perform-IsValid}
use mozza.Order.Navigation.{
  Order, ImageAlias, Template, handle_alias_select, handle_template_select, handle_imported_recipe,
  handle_framework_complete, alias_created, can_next, take_alias, take_imported, prepared, go_next,
  go_back, toggle_editing,
}

-- What the user can do in the wizard. A new alias comes with the answer of the server.
pub data Move : Type 0 where
  pick_alias create_alias : ImageAlias → Move
  pick_template : Template → Move
  import_recipe : String → Move
  finish_framework : String → String → Move
  set_variable : String → String → Move
  name_app : String → Move
  edit_slices : Slices.Action → Move
  next back edit_or_reset : Move
  edit_recipe : String → Move

pub perform_move : Move → Order → Order
unfolding go_next go_back toggle_editing
perform_move (pick_alias a) o = handle_alias_select a o
perform_move (create_alias a) o = alias_created a o
perform_move (pick_template tpl) o = handle_template_select tpl o
perform_move (import_recipe r) o = handle_imported_recipe r o
perform_move (finish_framework name r) o = handle_framework_complete name r o
perform_move (set_variable k v) o = record o { template_vars = set_image k v o.template_vars }
perform_move (name_app s) o = record o { app_name = s }
perform_move (edit_slices a) o = record o { wizard = perform a o.wizard }
perform_move next o = if can_next o then go_next o else o
perform_move back o = go_back o
perform_move edit_or_reset o = toggle_editing o
perform_move (edit_recipe s) o = if o.editing_recipe then record o { edited_recipe = s } else o

abbrev pub perform_moves : List Move → Order → Order
perform_moves [] o = o
perform_moves (m ∷ ms) o = perform_moves ms (perform_move m o)

-- One of the three steps; valid slices; and the text that is shown is the text in the editor,
-- unless it is being edited.
pub record IsSound (o : Order) : Type 0 where
  pub first : 1 ≤ o.step
  pub last : o.step ≤ 3
  pub slices : IsValid o.wizard
  pub shown : (o.editing_recipe ≡ true) ⊎ (o.edited_recipe ≡ o.recipe_source)

take_alias-IsValid : (a : ImageAlias) (w : WizardState) → IsValid w → IsValid (take_alias a w)
take_alias-IsValid a w v = elim (Option-cases (get_elem? w.services w.active_service_index)) [
  | inl missing ↦ rw (missing, take_alias) v
  | inr (svc, found) ↦
      let named : ServiceInterviewState → ServiceInterviewState =
        λ s. record s { alias_name = a.name; alias_image = a.image_ref; service_name = a.name } in
      let u =
        rw (found, update_service) at
          (update_service-IsValid w.active_service_index named w (λ s k. k) v) in
      rw (found, take_alias) (record { active = u.active; copies = u.copies })
]

take_imported-IsValid : (n : String) (w : WizardState) → IsValid w → IsValid (take_imported n w)
take_imported-IsValid n w v = elim (Option-cases (get_elem? w.services 0)) [
  | inl missing ↦ rw (missing, take_imported) v
  | inr (svc, found) ↦
      let named : ServiceInterviewState → ServiceInterviewState =
        λ s. record s { alias_name = n; alias_image = "" } in
      let u = rw (found, update_service) at (update_service-IsValid 0 named w (λ s k. k) v) in
      rw (found, take_imported) (record { active = u.active; copies = u.copies })
]

prepared-IsValid : (o : Order) → IsValid o.wizard → IsValid (prepared o)
unfolding prepared
prepared-IsValid o v = elim (Option-cases o.selected_alias) [
  | inr (a, chosen) ↦ rw (chosen, prepared) (take_alias-IsValid a o.wizard v)
  | inl no_alias ↦ elim (Option-cases o.selected_template) [
    | inr (tpl, chosen) ↦
        rw (no_alias, chosen, prepared) (record { active = v.active; copies = v.copies })
    | inl no_template ↦ elim (Bool-cases (o.imported_recipe == "")) [
      | inl empty ↦ rw (no_alias, no_template, empty, prepared) v
      | inr given ↦
          rw (no_alias, no_template, given, prepared) (take_imported-IsValid o.app_name o.wizard v)
    ]
  ]
]

go_next-IsSound : (o : Order) → IsSound o → IsSound (go_next o)
unfolding go_next
go_next-IsSound o v = elim (Bool-cases (o.step == 1)) [
  | inl picking ↦
      rw (picking, go_next)
        (record {
          first = omega arith;
          last = omega arith;
          slices = prepared-IsValid o v.slices;
          shown = v.shown;
        })
  | inr other ↦ elim (Bool-cases (o.step == 2)) [
    | inl customizing ↦
        rw (other, customizing, go_next)
          (record { first = omega arith; last = omega arith; slices = v.slices; shown = inr refl })
    | inr reviewing ↦ rw (other, reviewing, go_next) v
  ]
]

-- Selecting and naming leave the rest as it is.
selection-IsSound :
    (o : Order) (a : Option ImageAlias) (tpl : Option Template) (r : String)
    (vars : List (String × String)) (name : String)
    → IsSound o
    → IsSound (record o {
      selected_alias = a;
      selected_template = tpl;
      imported_recipe = r;
      template_vars = vars;
      app_name = name;
    })
selection-IsSound o a tpl r vars name v = record {
  first = v.first;
  last = v.last;
  slices = v.slices;
  shown = v.shown;
}

perform_move-IsSound : (m : Move) (o : Order) → IsSound o → IsSound (perform_move m o)
unfolding perform_move go_back toggle_editing handle_alias_select alias_created
    handle_template_select handle_imported_recipe handle_framework_complete
perform_move-IsSound (pick_alias a) o v = selection-IsSound o _ _ _ _ _ v
perform_move-IsSound (create_alias a) o v = selection-IsSound o _ _ _ _ _ v
perform_move-IsSound (pick_template tpl) o v = selection-IsSound o _ _ _ _ _ v
perform_move-IsSound (import_recipe r) o v = selection-IsSound o _ _ _ _ _ v
perform_move-IsSound (finish_framework n r) o v = record {
  first = omega arith;
  last = omega arith;
  slices = v.slices;
  shown = inr refl;
}
perform_move-IsSound (set_variable k x) o v = selection-IsSound o _ _ _ _ _ v
perform_move-IsSound (name_app s) o v = selection-IsSound o _ _ _ _ _ v
perform_move-IsSound (edit_slices a) o v = record {
  first = v.first;
  last = v.last;
  slices = perform-IsValid a o.wizard v.slices;
  shown = v.shown;
}
perform_move-IsSound next o v = elim (Bool-cases (can_next o)) [
  | inl on ↦ rw (on, perform_move) (go_next-IsSound o v)
  | inr off ↦ rw (off, perform_move) v
]
perform_move-IsSound back o v = record {
  first = ground (arith, v.first);
  last = ground (arith, v.last);
  slices = v.slices;
  shown = v.shown;
}
perform_move-IsSound edit_or_reset o v = record {
  first = ground (arith, v.first);
  last = ground (arith, v.last);
  slices = elim (Bool-cases o.editing_recipe) [
    | inl on ↦ rw (on, perform_move) v.slices
    | inr off ↦ rw (off, perform_move) v.slices
  ];
  shown = ground (arith, v.shown);
}
perform_move-IsSound (edit_recipe s) o v = record {
  first = ground (arith, v.first);
  last = ground (arith, v.last);
  slices = elim (Bool-cases o.editing_recipe) [
    | inl on ↦ rw (on, perform_move) v.slices
    | inr off ↦ rw (off, perform_move) v.slices
  ];
  shown = ground (arith, v.shown);
}

-- In an order that is at one of the three steps, has valid slices, and holds in its editor the
-- recipe under review unless that is being edited, this stays so whatever the user does.
pub perform_moves-IsSound : (ms : List Move) (o : Order) → IsSound o → IsSound (perform_moves ms o)
perform_moves-IsSound [] o v = v
perform_moves-IsSound (m ∷ ms) o v =
    perform_moves-IsSound ms (perform_move m o) (perform_move-IsSound m o v)
