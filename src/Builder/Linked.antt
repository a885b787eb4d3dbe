-- ===== src/Builder/Linked.antt =====
-- The connections of the canvas, under everything the user can do with it.
pub mod Invariant
pub mod Board
use mozza.Prelude.{
  ℕ, ℤ, ◌≡◌, refl, Bool, true, false, not, ◌&&◌, ◌||◌, Option, none, some, List, [], ◌∷◌, ◌++◌, map,
  String, arith, eq_iff, filter, find, any, all, Option-cases, Bool-cases, inl, inr, ◌==◌,
  string_eq, if◌then◌else◌,
}
use mozza.Builder.{
  BlockKind, CanvasBlock, CanvasConnection, CanvasState, Canvas, Update, new_block, drop_palette,
  change_block, move_block, apply_update, handle_update, handle_remove, handle_connect, generate_id,
}

abbrev pub has_block : List CanvasBlock → String → Bool
has_block bs id = any (λ b. b.id == id) bs

-- The connection goes from one block of the canvas to another one.
abbrev pub is_linked : List CanvasBlock → CanvasConnection → Bool
is_linked bs k = has_block bs k.from && has_block bs k.to && not (k.from == k.to)

abbrev pub repeats : CanvasConnection → List CanvasConnection → Bool
repeats k ks = any (λ j. j.from == k.from && j.to == k.to) ks

abbrev pub no_repeats : List CanvasConnection → Bool
no_repeats [] = true
no_repeats (k ∷ ks) = not (repeats k ks) && no_repeats ks

pub record IsSound (s : CanvasState) : Type 0 where
  pub linked : all (is_linked s.blocks) s.connections ≡ true
  pub distinct : no_repeats s.connections ≡ true

-- What the user can do.
pub data Action : Type 0 where
  drop : ℕ → BlockKind → ℤ → ℤ → Action
  move : String → ℤ → ℤ → Action
  select : Option String → Action
  update : Update → Action
  remove : Action
  connect : String → Action

abbrev pub selected_block : Canvas → Option CanvasBlock
selected_block c = elim c.selected_id [
  | none ↦ none
  | some id ↦ find (λ b. b.id == id) c.state.blocks
]

-- The panel offers the other blocks to connect the selected one to.
abbrev pub connect_selected : String → CanvasBlock → Canvas → Canvas
connect_selected to_id b c =
    if has_block (filter (λ o. not (o.id == b.id)) c.state.blocks) to_id
    then handle_connect b.id to_id c
    else c

pub perform : Action → Canvas → Canvas
perform (drop now kind dx dy) c = drop_palette now kind dx dy c
perform (move id dx dy) c = move_block id dx dy c
perform (select id) c = record c { selected_id = id }
perform (update u) c = elim (selected_block c) [ none ↦ c | some b ↦ handle_update b.id u c ]
perform remove c = elim (selected_block c) [ none ↦ c | some b ↦ handle_remove b.id c ]
perform (connect to_id) c = elim (selected_block c) [
  | none ↦ c
  | some b ↦ connect_selected to_id b c
]

abbrev pub perform_all : List Action → Canvas → Canvas
perform_all [] c = c
perform_all (a ∷ acts) c = perform_all acts (perform a c)

has_block-map :
    (id : String) (f : CanvasBlock → CanvasBlock) (bs : List CanvasBlock) (i : String)
    → ((b : CanvasBlock) → (f b).id ≡ b.id)
    → has_block (map (λ b. if b.id == id then f b else b) bs) i ≡ has_block bs i
has_block-map id f [] i same = refl
has_block-map id f (b ∷ bs) i same = ground (arith, same b, has_block-map id f bs i same)

has_block-append :
    (bs : List CanvasBlock) (b : CanvasBlock) (i : String)
    → has_block bs i ≡ true
    → has_block (bs ++ b ∷ []) i ≡ true
has_block-append [] b i h = ground arith
has_block-append (c ∷ bs) b i h = ground (arith, has_block-append bs b i)

has_block-filter :
    (id : String) (bs : List CanvasBlock) (i : String)
    → has_block (filter (λ b. not (b.id == id)) bs) i ≡ (has_block bs i && not (i == id))
has_block-filter id [] i = refl
has_block-filter id (b ∷ bs) i =
    ground (arith, eq_iff b.id i, eq_iff b.id id, eq_iff i id, has_block-filter id bs i)

-- Connections stay linked where every block is still there.
linked_mono :
    (bs cs : List CanvasBlock) (ks : List CanvasConnection)
    → ((i : String) → has_block bs i ≡ true → has_block cs i ≡ true)
    → all (is_linked bs) ks ≡ true
    → all (is_linked cs) ks ≡ true
linked_mono bs cs [] keep h = h
linked_mono bs cs (k ∷ ks) keep h =
    ground (arith, keep k.from, keep k.to, linked_mono bs cs ks keep)

linked-filter :
    (id : String) (bs : List CanvasBlock) (ks : List CanvasConnection)
    → all (is_linked bs) ks ≡ true
    → all
        (is_linked (filter (λ b. not (b.id == id)) bs))
        (filter (λ k. not (k.from == id) && not (k.to == id)) ks)
      ≡ true
linked-filter id bs [] h = h
linked-filter id bs (k ∷ ks) h =
    ground
      (arith, has_block-filter id bs k.from, has_block-filter id bs k.to, linked-filter id bs ks)

repeats-filter :
    (p : CanvasConnection → Bool) (k : CanvasConnection) (ks : List CanvasConnection)
    → repeats k ks ≡ false
    → repeats k (filter p ks) ≡ false
repeats-filter p k [] h = h
repeats-filter p k (j ∷ ks) h = ground (arith, repeats-filter p k ks)

no_repeats-filter :
    (p : CanvasConnection → Bool) (ks : List CanvasConnection)
    → no_repeats ks ≡ true
    → no_repeats (filter p ks) ≡ true
no_repeats-filter p [] h = h
no_repeats-filter p (k ∷ ks) h = ground (arith, repeats-filter p k ks, no_repeats-filter p ks)

all-linked-append :
    (bs : List CanvasBlock) (ks : List CanvasConnection) (k : CanvasConnection)
    → all (is_linked bs) ks ≡ true
    → is_linked bs k ≡ true
    → all (is_linked bs) (ks ++ k ∷ []) ≡ true
all-linked-append bs [] k h l = ground arith
all-linked-append bs (j ∷ ks) k h l = ground (arith, all-linked-append bs ks k)

repeats-append :
    (j k : CanvasConnection) (ks : List CanvasConnection)
    → repeats j (ks ++ k ∷ []) ≡ (repeats j ks || k.from == j.from && k.to == j.to)
repeats-append j k [] = ground arith
repeats-append j k (i ∷ ks) = ground (arith, repeats-append j k ks)

no_repeats-append :
    (ks : List CanvasConnection) (k : CanvasConnection)
    → no_repeats ks ≡ true
    → repeats k ks ≡ false
    → no_repeats (ks ++ k ∷ []) ≡ true
no_repeats-append [] k h new = refl
no_repeats-append (j ∷ ks) k h new = ground (
  arith,
  repeats-append j k ks,
  no_repeats-append ks k,
  eq_iff k.from j.from,
  eq_iff k.to j.to,
  eq_iff j.from k.from,
  eq_iff j.to k.to,
)
