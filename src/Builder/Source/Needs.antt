-- ===== src/Builder/Source/Needs.antt =====
-- The needs of the blocks in the recipe of a canvas.
use mozza.Prelude.{
  find_iff, ◌≡◌, refl, true, Option, some, List, [], ◌∷◌, String, arith, eq_refl, length, filter,
  find, all, includes, includes-append, All, Option-cases, inl, inr, ◌==◌, string_eq,
}
use mozza.Builder.{CanvasBlock, CanvasConnection, CanvasState}
use mozza.Builder.Linked.{is_linked, IsSound}
use mozza.Builder.Source.{deps, target_of, needed, slice_line, block_lines, all_lines, source_parts}

-- The recipe has a slice of this name.
abbrev pub HasSlice : CanvasState → Option String → String → Type 0
HasSlice s app name = includes (source_parts s app) (slice_line name) ≡ true

all_lines-find :
    (s : CanvasState) (bs : List CanvasBlock) (id : String) (b : CanvasBlock)
    → find (λ o. o.id == id) bs ≡ some b
    → includes (all_lines s bs) (slice_line b.name) ≡ true
unfolding all_lines block_lines
all_lines-find s [] id b h = ground arith
all_lines-find s (o ∷ bs) id b h = ground (
  arith,
  eq_refl (slice_line b.name),
  all_lines-find s bs id b,
  includes-append (block_lines s o) (all_lines s bs) (slice_line b.name),
)

source_parts-target :
    (s : CanvasState) (app : Option String) (dep : CanvasConnection) (b : CanvasBlock)
    → target_of s dep ≡ some b
    → HasSlice s app b.name
unfolding source_parts
source_parts-target s app dep b h = go s.blocks refl
  where
    go : (bs : List CanvasBlock) → s.blocks ≡ bs → HasSlice s app b.name
    go [] e = ground arith
    go (o ∷ bs) e =
        rw (e, source_parts) (ground (arith, all_lines-find s (o ∷ bs) dep.to b (rw e at h)))

needed-All :
    (s : CanvasState) (app : Option String) (ds : List CanvasConnection)
    → All (HasSlice s app) (needed s ds)
unfolding needed
needed-All s app [] = tt
needed-All s app (d ∷ ds) = elim (Option-cases (target_of s d)) [
  | inl gone ↦ rw (gone, needed) (needed-All s app ds)
  | inr (b, found) ↦ rw (found, needed) ((source_parts-target s app d b found, needed-All s app ds))
]

-- Every slice that a block needs is in the recipe.
pub needed-HasSlice :
    (s : CanvasState) (app : Option String) (b : CanvasBlock)
    → All (HasSlice s app) (needed s (deps s b))
needed-HasSlice s app b = needed-All s app (deps s b)

-- Connections to blocks of the canvas lead to as many needs.
length-needed-linked :
    (s : CanvasState) (id : String) (ks : List CanvasConnection)
    → all (is_linked s.blocks) ks ≡ true
    → length (needed s (filter (λ c. c.from == id) ks)) ≡ length (filter (λ c. c.from == id) ks)
unfolding needed
length-needed-linked s id [] h = refl
length-needed-linked s id (k ∷ ks) h =
    ground (arith, find_iff (λ o. o.id == k.to) s.blocks, length-needed-linked s id ks)

-- On a canvas whose connections are between blocks of it, no connection of a block is lost: its
-- slice has as many needs as it has connections.
pub length-needed :
    (s : CanvasState) (b : CanvasBlock)
    → IsSound s
    → length (needed s (deps s b)) ≡ length (deps s b)
length-needed s b v = length-needed-linked s b.id s.connections v.linked
