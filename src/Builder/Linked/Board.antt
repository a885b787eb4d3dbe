-- ===== src/Builder/Linked/Board.antt =====
-- The canvas as a graph: which blocks there are, which are connected, and the actions of the user
-- on it.
use mathlib.Core.Path.{fun_ext}
use mozza.Builder.Linked.Invariant.{apply_update-id}
use mozza.Prelude.{
  sym, any-filter, any-and, ap, ◌∙◌, ℕ, ℤ, suc, ◌≡◌, refl, Bool, not, ◌&&◌, ◌||◌, Option, none,
  some, List, [], ◌∷◌, ◌++◌, String, arith, eq_iff, eq_refl, filter, find, any, Option-cases,
  Bool-cases, inl, inr, ◌==◌, string_eq, if◌then◌else◌,
}
use mozza.Builder.{
  BlockKind, CanvasBlock, CanvasConnection, Canvas, new_block, drop_palette, change_block,
  move_block, apply_update, handle_update, handle_remove, handle_connect, generate_id, is_selected,
}
use mozza.Builder.Linked.{
  has_block, Action, drop, move, select, update, remove, connect, selected_block, connect_selected,
  perform, perform_all, has_block-map, has_block-filter,
}

-- The graph of a canvas, with what is selected.
pub record Board : Type 0 where
  pub has : String → Bool
  pub edge : String → String → Bool
  pub selected : Option String
  pub next : ℕ

abbrev pub connected : List CanvasConnection → String → String → Bool
connected ks i j = any (λ k. k.from == i && k.to == j) ks

abbrev pub view : Canvas → Board
view c = record {
  has = has_block c.state.blocks;
  edge = connected c.state.connections;
  selected = c.selected_id;
  next = c.next_block_id;
}

abbrev pub selected_on : Board → Option String
selected_on b = elim b.selected [ none ↦ none | some id ↦ if b.has id then some id else none ]

abbrev pub remove_vertex : String → Board → Board
remove_vertex id b = record b {
  has = λ i. b.has i && not (i == id);
  edge = λ i j. b.edge i j && (not (i == id) && not (j == id));
  selected = none;
}

abbrev pub add_edge : String → String → Board → Board
add_edge from to b =
    if b.has to && not (to == from)
    then record b { edge = λ i j. b.edge i j || (i == from && j == to) }
    else b

-- The actions on the graph.
pub play : Action → Board → Board
play (drop now kind dx dy) b =
    let id = generate_id now b.next in
    record b { has = λ i. b.has i || i == id; selected = some id; next = suc b.next }
play (move id dx dy) b = b
play (select id) b = record b { selected = id }
play (update u) b = b
play remove b = elim (selected_on b) [ none ↦ b | some id ↦ remove_vertex id b ]
play (connect to) b = elim (selected_on b) [ none ↦ b | some id ↦ add_edge id to b ]

abbrev pub play_all : List Action → Board → Board
play_all [] b = b
play_all (a ∷ acts) b = play_all acts (play a b)

has_block_snoc :
    (bs : List CanvasBlock) (b : CanvasBlock) (i : String)
    → has_block (bs ++ b ∷ []) i ≡ (has_block bs i || i == b.id)
has_block_snoc [] b i = ground (arith, eq_iff b.id i, eq_iff i b.id)
has_block_snoc (c ∷ bs) b i = ground (arith, has_block_snoc bs b i)

connected_snoc :
    (ks : List CanvasConnection) (k : CanvasConnection) (i j : String)
    → connected (ks ++ k ∷ []) i j ≡ (connected ks i j || (i == k.from && j == k.to))
connected_snoc [] k i j =
    ground (arith, eq_iff k.from i, eq_iff i k.from, eq_iff k.to j, eq_iff j k.to)
connected_snoc (l ∷ ks) k i j = ground (arith, connected_snoc ks k i j)

-- What holds of two texts that are equal holds of either.
and_not-eq : (x y z : String) → (x == y && not (x == z)) ≡ (x == y && not (y == z))
and_not-eq x y z = elim (Bool-cases (x == y)) [
  | inl same ↦ rw ((eq_iff x y).0 same) refl
  | inr other ↦ rw other refl
]

kept-filter :
    (id : String) (k : CanvasConnection) (i j : String)
    → (k.from == i && k.to == j) && (not (k.from == id) && not (k.to == id))
      ≡ ((k.from == i && k.to == j) && (not (i == id) && not (j == id)))
kept-filter id k i j = ground (arith, and_not-eq k.from i id, and_not-eq k.to j id)

connected-filter :
    (id : String) (ks : List CanvasConnection) (i j : String)
    → connected (filter (λ k. not (k.from == id) && not (k.to == id)) ks) i j
      ≡ (connected ks i j && (not (i == id) && not (j == id)))
connected-filter id ks i j =
    any-filter (λ k. k.from == i && k.to == j) (λ k. not (k.from == id) && not (k.to == id)) ks
    ∙ (ap (λ p. any p ks) (fun_ext (λ k. kept-filter id k i j))
        ∙ any-and (λ k. k.from == i && k.to == j) (not (i == id) && not (j == id)) ks)

-- The selected block, as the graph sees it.
id_of : Option CanvasBlock → Option String
id_of none = none
id_of (some b) = some b.id

has_block-find :
    (bs : List CanvasBlock) (id : String)
    → (if has_block bs id then some id else none) ≡ id_of (find (λ b. b.id == id) bs)
unfolding id_of
has_block-find [] id = refl
has_block-find (b ∷ bs) id = ground (arith, eq_iff b.id id, has_block-find bs id)

selected_on-view : (c : Canvas) → selected_on (view c) ≡ id_of (selected_block c)
unfolding id_of
selected_on-view c = elim (Option-cases c.selected_id) [
  | inl nothing ↦ ground arith
  | inr (id, chosen) ↦ rw (chosen, selected_on, selected_block) (has_block-find c.state.blocks id)
]

-- A change of one block that keeps its name is no change of the graph.
view-change_block :
    (id : String) (f : CanvasBlock → CanvasBlock) (c : Canvas)
    → ((b : CanvasBlock) → (f b).id ≡ b.id)
    → view (record c { state = change_block id f c.state }) ≡ view c
view-change_block id f c same = λ k. record {
  has = λ i. has_block-map id f c.state.blocks i same k;
  edge = connected c.state.connections;
  selected = c.selected_id;
  next = c.next_block_id;
}

find-eq-some :
    (bs : List CanvasBlock) (id : String) (b : CanvasBlock)
    → find (λ o. o.id == id) bs ≡ some b
    → b.id ≡ id
find-eq-some [] id b h = ground arith
find-eq-some (o ∷ bs) id b h = ground (arith, eq_iff o.id id, find-eq-some bs id b)

selected-eq-some :
    (c : Canvas) (b : CanvasBlock) → selected_block c ≡ some b → c.selected_id ≡ some b.id
selected-eq-some c b h = elim (Option-cases c.selected_id) [
  | inl nothing ↦ ground arith
  | inr (id, chosen) ↦ chosen ∙ ap some (sym (find-eq-some c.state.blocks id b (rw chosen at h)))
]

view-handle_remove :
    (id : String) (c : Canvas)
    → c.selected_id ≡ some id
    → view (handle_remove id c) ≡ remove_vertex id (view c)
unfolding handle_remove
view-handle_remove id c chosen = λ k. record {
  has = λ i. has_block-filter id c.state.blocks i k;
  edge = λ i j. connected-filter id c.state.connections i j k;
  selected = deselected k;
  next = c.next_block_id;
}
  where
    deselected : (if is_selected id c.selected_id then none else c.selected_id) ≡ none
    deselected = ground (arith, eq_refl id)

-- A connection that is there already is not repeated, and is no news for the graph.
edge-handle_connect :
    (from to : String) (c : Canvas) (i j : String)
    → connected (handle_connect from to c).state.connections i j
      ≡ (connected c.state.connections i j || (i == from && j == to))
unfolding handle_connect
edge-handle_connect from to c i j = elim (Bool-cases (connected c.state.connections from to)) [
  | inr new ↦
      rw (new, handle_connect)
        (connected_snoc c.state.connections (record { from = from; to = to }) i j)
  | inl there ↦
      rw (there, handle_connect)
        (elim (Bool-cases (i == from && j == to)) [
          | inr other ↦ ground arith
          | inl same ↦
              rw ((eq_iff i from).0 (ground arith), (eq_iff j to).0 (ground arith)) (ground arith)
        ])
]

view-handle_connect :
    (from to : String) (c : Canvas)
    → view (handle_connect from to c) ≡ record (view c) {
      edge = λ i j. connected c.state.connections i j || (i == from && j == to);
    }
unfolding handle_connect
view-handle_connect from to c = λ k. record {
  has = same_blocks k;
  edge = λ i j. edge-handle_connect from to c i j k;
  selected = same_selected k;
  next = same_next k;
}
  where
    same_blocks : has_block (handle_connect from to c).state.blocks ≡ has_block c.state.blocks
    same_blocks = ap has_block (ground arith)

    same_selected : (handle_connect from to c).selected_id ≡ c.selected_id
    same_selected = ground arith

    same_next : (handle_connect from to c).next_block_id ≡ c.next_block_id
    same_next = ground arith

view-connect_selected :
    (to : String) (b : CanvasBlock) (c : Canvas)
    → view (connect_selected to b c) ≡ add_edge b.id to (view c)
view-connect_selected to b c = elim (Bool-cases (has_block c.state.blocks to && not (to == b.id))) [
  | inl offered ↦
      rw (has_block-filter b.id c.state.blocks to, offered) (view-handle_connect b.id to c)
  | inr refused ↦ rw (has_block-filter b.id c.state.blocks to, refused) refl
]

new_block-id : (id : String) (kind : BlockKind) (dx dy : ℤ) → (new_block id kind dx dy).id ≡ id
unfolding new_block
new_block-id id kind dx dy = ground arith

view-drop_palette :
    (now : ℕ) (kind : BlockKind) (dx dy : ℤ) (c : Canvas)
    → view (drop_palette now kind dx dy c) ≡ play (drop now kind dx dy) (view c)
unfolding play drop_palette
view-drop_palette now kind dx dy c =
    let id = generate_id now c.next_block_id in
    let b = new_block id kind dx dy in
    let is_id = new_block-id id kind dx dy in
    λ k. record {
      has = λ i.
          (has_block_snoc c.state.blocks b i
              ∙ ap (λ (n : String). has_block c.state.blocks i || i == n) is_id)
            k;
      edge = connected c.state.connections;
      selected = some (is_id k);
      next = suc c.next_block_id;
    }

-- Each action on the canvas is the action on its graph.
view-perform : (a : Action) (c : Canvas) → view (perform a c) ≡ play a (view c)
unfolding perform play move_block handle_update id_of
view-perform (drop now kind dx dy) c = view-drop_palette now kind dx dy c
view-perform (move id dx dy) c = view-change_block id _ c (λ b. refl)
view-perform (select id) c = refl
view-perform (update u) c = elim (Option-cases (selected_block c)) [
  | inl nothing ↦ rw (nothing, perform) refl
  | inr (b, chosen) ↦
      rw (chosen, perform) (view-change_block b.id (apply_update u) c (λ o. apply_update-id u o))
]
view-perform remove c = elim (Option-cases (selected_block c)) [
  | inl nothing ↦ rw (nothing, perform, play, selected_on-view, nothing) refl
  | inr (b, chosen) ↦
      rw (chosen, perform, play, selected_on-view, chosen)
        (view-handle_remove b.id c (selected-eq-some c b chosen))
]
view-perform (connect to) c = elim (Option-cases (selected_block c)) [
  | inl nothing ↦ rw (nothing, perform, play, selected_on-view, nothing) refl
  | inr (b, chosen) ↦
      rw (chosen, perform, play, selected_on-view, chosen) (view-connect_selected to b c)
]

-- The canvas implements its graph: after whatever the user does, the blocks and the connections
-- are those that the same actions make on the graph, which knows neither lists nor their order.
pub view-perform_all :
    (acts : List Action) (c : Canvas) → view (perform_all acts c) ≡ play_all acts (view c)
view-perform_all [] c = refl
view-perform_all (a ∷ acts) c =
    view-perform_all acts (perform a c) ∙ ap (play_all acts) (view-perform a c)
