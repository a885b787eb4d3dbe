-- ===== src/Builder/Linked/Invariant.antt =====
-- The state of the canvas stays sound, whatever the user does.
use mozza.Prelude.{
  ◌≡◌, refl, true, false, not, ◌&&◌, some, List, [], ◌∷◌, String, arith, eq_iff, eq_refl, filter,
  find, Option-cases, Bool-cases, inl, inr, ◌==◌, string_eq,
}
use mozza.Builder.{
  CanvasBlock, CanvasConnection, CanvasState, Canvas, Update, new_block, drop_palette, change_block,
  move_block, apply_update, handle_update, handle_remove, handle_connect, generate_id,
}
use mozza.Builder.Linked.{
  has_block, repeats, IsSound, Action, drop, move, select, update, remove, connect, selected_block,
  connect_selected, perform, perform_all, has_block-map, has_block-append, has_block-filter,
  linked_mono, linked-filter, no_repeats-filter, all-linked-append, no_repeats-append,
}

change_block-IsSound :
    (id : String) (f : CanvasBlock → CanvasBlock) (s : CanvasState)
    → ((b : CanvasBlock) → (f b).id ≡ b.id)
    → IsSound s
    → IsSound (change_block id f s)
change_block-IsSound id f s same v = record {
  linked =
      linked_mono s.blocks (change_block id f s).blocks s.connections
        (λ i h. rw (has_block-map id f s.blocks i same) h) v.linked;
  distinct = v.distinct;
}

pub apply_update-id : (u : Update) (b : CanvasBlock) → (apply_update u b).id ≡ b.id
unfolding apply_update
apply_update-id u b = ground arith

handle_remove-IsSound :
    (id : String) (c : Canvas) → IsSound c.state → IsSound (handle_remove id c).state
unfolding handle_remove
handle_remove-IsSound id c v = record {
  linked = linked-filter id c.state.blocks c.state.connections v.linked;
  distinct =
      no_repeats-filter (λ k. not (k.from == id) && not (k.to == id)) c.state.connections
        v.distinct;
}

-- A connection between two different blocks of the canvas.
handle_connect-IsSound :
    (from to : String) (c : Canvas)
    → has_block c.state.blocks from ≡ true
    → has_block c.state.blocks to ≡ true
    → from == to ≡ false
    → IsSound c.state
    → IsSound (handle_connect from to c).state
unfolding handle_connect
handle_connect-IsSound from to c hf ht apart v =
    let k : CanvasConnection = record { from = from; to = to } in
    elim (Bool-cases (repeats k c.state.connections)) [
      | inl there ↦ rw (there, handle_connect) v
      | inr new ↦
          rw (new, handle_connect)
            (record {
              linked =
                  all-linked-append c.state.blocks c.state.connections k v.linked (ground arith);
              distinct = no_repeats-append c.state.connections k v.distinct new;
            })
    ]

has_block-find :
    (bs : List CanvasBlock) (id : String) (b : CanvasBlock)
    → find (λ o. o.id == id) bs ≡ some b
    → has_block bs b.id ≡ true
has_block-find [] id b h = ground arith
has_block-find (o ∷ bs) id b h = ground (arith, has_block-find bs id b, eq_refl b.id)

has_block-selected :
    (c : Canvas) (b : CanvasBlock)
    → selected_block c ≡ some b
    → has_block c.state.blocks b.id ≡ true
has_block-selected c b h = elim (Option-cases c.selected_id) [
  | inl nothing ↦ ground arith
  | inr (id, chosen) ↦ has_block-find c.state.blocks id b (rw chosen at h)
]

connect_selected-IsSound :
    (to : String) (b : CanvasBlock) (c : Canvas)
    → selected_block c ≡ some b
    → IsSound c.state
    → IsSound (connect_selected to b c).state
connect_selected-IsSound to b c chosen v =
    elim (Bool-cases (has_block (filter (λ o. not (o.id == b.id)) c.state.blocks) to)) [
      | inr out ↦ rw (out, connect_selected) v
      | inl offered ↦
          rw (offered, connect_selected)
            (handle_connect-IsSound b.id to c (has_block-selected c b chosen)
              (ground (arith, has_block-filter b.id c.state.blocks to))
              (ground
                (arith, has_block-filter b.id c.state.blocks to, eq_iff b.id to, eq_iff to b.id))
              v)
    ]

perform-IsSound : (a : Action) (c : Canvas) → IsSound c.state → IsSound (perform a c).state
unfolding perform drop_palette move_block handle_update
perform-IsSound (drop now kind dx dy) c v = record {
  linked =
      linked_mono c.state.blocks _ c.state.connections
        (has_block-append c.state.blocks (new_block (generate_id now c.next_block_id) kind dx dy))
        v.linked;
  distinct = v.distinct;
}
perform-IsSound (move id dx dy) c v = change_block-IsSound id _ c.state (λ b. refl) v
perform-IsSound (select id) c v = v
perform-IsSound (update u) c v = elim (Option-cases (selected_block c)) [
  | inl nothing ↦ rw (nothing, perform) v
  | inr (b, chosen) ↦
      rw (chosen, perform)
        (change_block-IsSound b.id (apply_update u) c.state (apply_update-id u) v)
]
perform-IsSound remove c v = elim (Option-cases (selected_block c)) [
  | inl nothing ↦ rw (nothing, perform) v
  | inr (b, chosen) ↦ rw (chosen, perform) (handle_remove-IsSound b.id c v)
]
perform-IsSound (connect to) c v = elim (Option-cases (selected_block c)) [
  | inl nothing ↦ rw (nothing, perform) v
  | inr (b, chosen) ↦ rw (chosen, perform) (connect_selected-IsSound to b c chosen v)
]

-- On a canvas where every connection goes from one of its blocks to another one, and no two
-- connections are the same, this stays so whatever the user does.
pub perform_all-IsSound :
    (acts : List Action) (c : Canvas) → IsSound c.state → IsSound (perform_all acts c).state
perform_all-IsSound [] c v = v
perform_all-IsSound (a ∷ acts) c v = perform_all-IsSound acts (perform a c) (perform-IsSound a c v)
