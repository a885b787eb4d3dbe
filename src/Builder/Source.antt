-- ===== src/Builder/Source.antt =====
-- ui/src/pages/RecipeBuilderPage.tsx: the recipe of a canvas. A text that the source appends is an
-- element of a list.
pub mod Needs
use mozza.Prelude.{
  ℕ, ℤ, pos, negsuc, exceeds, decimal_int, Bool, true, false, not, ◌&&◌, ◌||◌, Option, none, some,
  List, [], ◌∷◌, ◌++◌, map, String, template, join, filter, find, ◌==◌, string_eq, if◌then◌else◌,
}
use mozza.Interview.Combo.{or_else}
use mozza.Recipe.{when, given}
use mozza.Builder.{
  BlockKind, web, worker, database, cache, api, gateway, task, scheduled, stateful, daemon,
  CanvasBlock, CanvasConnection, CanvasState,
}

abbrev is_web : BlockKind → Bool
is_web web = true
is_web _ = false

-- `block.field ?? d`
abbrev text_or : String → Option String → String
text_or d none = d
text_or d (some s) = s

abbrev is_on : Option Bool → Bool
is_on none = false
is_on (some v) = v

-- `block.field && block.field > n`, with the number's text.
abbrev count_line : String → ℕ → Option ℤ → List String
count_line prefix n none = []
count_line prefix n (some z) = when (exceeds z n) (template (prefix ∷ decimal_int z ∷ "\n" ∷ []))

abbrev text_line : String → Option String → List String
text_line prefix none = []
text_line prefix (some s) = when (given s) (template (prefix ∷ s ∷ "\n" ∷ []))

abbrev port_text : String → CanvasBlock → List String
port_text prefix b = when (exceeds b.port 0) (template (prefix ∷ decimal_int b.port ∷ "\n" ∷ []))

-- The port of a block that is public or not.
abbrev open_or_listen : CanvasBlock → List String
open_or_listen b =
    if b.is_public && exceeds b.port 0
    then port_text "  open to the public on port " b
    else port_text "  listen on port " b

-- `[engine, ver, stor].filter(Boolean).join(" ")`
abbrev database_parts : CanvasBlock → String
database_parts b =
    join " " (
      filter given (text_or "postgres" b.engine ∷ text_or "" b.version ∷ text_or "" b.storage ∷ []))

-- The lines of the `switch`.
pub kind_lines : CanvasBlock → List String
kind_lines b = elim b.kind [
  | web ↦ open_or_listen b
  | worker ↦ open_or_listen b
  | api ↦ port_text "  on port " b
  | gateway ↦ port_text "  open to the public on port " b
  | task ↦
      "  run once\n" ∷ count_line "  parallelism " 1 b.parallelism
      ++ count_line "  retries " 0 b.retries
  | scheduled ↦ text_line "  " b.schedule
  | database ↦
      when (given (database_parts b)) (template ("  " ∷ database_parts b ∷ "\n" ∷ []))
      ++ when (is_on b.backups) "  enable backups\n"
  | stateful ↦
      text_line "  each copy needs its own storage of " b.stateful_storage
      ++ when (is_on b.ordered_startup) "  start copies in order\n"
  | daemon ↦ "  run on every node\n" ∷ []
  | cache ↦ open_or_listen b
]

abbrev has_copies : BlockKind → Bool
has_copies task = false
has_copies scheduled = false
has_copies daemon = false
has_copies _ = true

abbrev copies : CanvasBlock → List String
copies b =
    if has_copies b.kind
    then (if exceeds b.replicas 1
        then template ("  run " ∷ decimal_int b.replicas ∷ " copies\n" ∷ [])
        else "  run 1 copy\n")
      ∷ []
    else []

-- `state.connections.filter(c => c.from === block.id)`
abbrev pub deps : CanvasState → CanvasBlock → List CanvasConnection
deps s b = filter (λ c. c.from == b.id) s.connections

-- `state.blocks.find(b => b.id === dep.to)`
abbrev pub target_of : CanvasState → CanvasConnection → Option CanvasBlock
target_of s dep = find (λ b. b.id == dep.to) s.blocks

-- The names that the lines `needs` hold.
pub needed : CanvasState → List CanvasConnection → List String
needed s [] = []
needed s (dep ∷ ds) = elim (target_of s dep) [
  | none ↦ needed s ds
  | some target ↦ target.name ∷ needed s ds
]

abbrev need_line : String → String
need_line name = template ("  needs " ∷ name ∷ "\n" ∷ [])

-- The line that begins a slice.
abbrev pub slice_line : String → String
slice_line name = template ("\n" ∷ name ∷ ":\n" ∷ [])

pub block_lines : CanvasState → CanvasBlock → List String
unfolding kind_lines needed
block_lines s b =
    slice_line b.name ∷ template ("  from image " ∷ b.image ∷ "\n" ∷ []) ∷ kind_lines b
    ++ (when (given b.health_path) (template ("  health check " ∷ b.health_path ∷ "\n" ∷ []))
        ++ (copies b ++ map need_line (needed s (deps s b))))

pub all_lines : CanvasState → List CanvasBlock → List String
unfolding block_lines
all_lines s [] = []
all_lines s (b ∷ bs) = block_lines s b ++ all_lines s bs

-- `recipeName || state.blocks.find(…)?.name || state.blocks[0]?.name || "app"`
abbrev app_name : CanvasState → Option String → String
app_name s recipe_name = or_else (text_or "" recipe_name) (
    or_else (elim (find (λ b. is_web b.kind) s.blocks) [ none ↦ "" | some b ↦ b.name ])
      (or_else (elim s.blocks [ [] ↦ "" | b ∷ bs ↦ b.name ]) "app"))

pub source_parts : CanvasState → Option String → List String
unfolding all_lines
source_parts s recipe_name = elim s.blocks [
  | [] ↦ []
  | b ∷ bs ↦ template ("App: " ∷ app_name s recipe_name ∷ "\n" ∷ []) ∷ all_lines s (b ∷ bs)
]

unfoldable pub generate_source : CanvasState → Option String → String
unfolding source_parts
generate_source s recipe_name = template (source_parts s recipe_name)
