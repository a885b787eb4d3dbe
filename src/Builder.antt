-- ===== src/Builder.antt =====
-- The visual builder: ui/src/components/builder/Canvas.tsx with its palette and its panel, on the
-- canvas model of ui/src/api/types.ts.
pub mod Linked
pub mod Source
mod Tests
use mozza.Prelude.{
  ℕ, suc, ℤ, pos, negsuc, ◌+ℤ◌, at_least_zero, parsed_or, Bool, true, false, not, ◌&&◌, ◌||◌,
  Option, none, some, List, [], ◌∷◌, ◌++◌, map, String, template, decimal, filter, find, any, ◌==◌,
  string_eq, if◌then◌else◌,
}

pub data BlockKind : Type 0 where
  web worker database cache api gateway task scheduled stateful daemon : BlockKind

pub record CanvasBlock : Type 0 where
  pub id : String
  pub kind : BlockKind
  pub name : String
  pub image : String
  pub port : ℤ
  pub is_public : Bool
  pub replicas : ℤ
  pub health_path : String
  pub x : ℤ
  pub y : ℤ
  pub schedule : Option String
  pub parallelism : Option ℤ
  pub retries : Option ℤ
  pub engine : Option String
  pub version : Option String
  pub storage : Option String
  pub backups : Option Bool
  pub stateful_storage : Option String
  pub ordered_startup : Option Bool

pub record CanvasConnection : Type 0 where
  pub from : String
  pub to : String

pub record CanvasState : Type 0 where
  pub blocks : List CanvasBlock
  pub connections : List CanvasConnection

-- The canvas with the block that is selected, and the number of the next block.
pub record Canvas : Type 0 where
  pub state : CanvasState
  pub selected_id : Option String
  pub next_block_id : ℕ

abbrev kind_name : BlockKind → String
kind_name web = "web"
kind_name worker = "worker"
kind_name database = "database"
kind_name cache = "cache"
kind_name api = "api"
kind_name gateway = "gateway"
kind_name task = "task"
kind_name scheduled = "scheduled"
kind_name stateful = "stateful"
kind_name daemon = "daemon"

abbrev default_image : BlockKind → String
default_image web = "nginx:alpine"
default_image database = "postgres:16-alpine"
default_image cache = "redis:7-alpine"
default_image gateway = "envoyproxy/envoy:v1.28"
default_image stateful = "bitnami/kafka:3.6"
default_image daemon = "fluent/fluent-bit:latest"
default_image _ = "node:20-alpine"

abbrev default_port : BlockKind → ℕ
default_port web = 8080
default_port database = 5432
default_port cache = 6379
default_port api = 8080
default_port gateway = 8080
default_port stateful = 9092
default_port _ = 0

abbrev one_of_web : BlockKind → Bool
one_of_web web = true
one_of_web gateway = true
one_of_web _ = false

abbrev has_health_path : BlockKind → Bool
has_health_path web = true
has_health_path api = true
has_health_path _ = false

abbrev no_replica_kinds : BlockKind → Bool
no_replica_kinds task = true
no_replica_kinds scheduled = true
no_replica_kinds daemon = true
no_replica_kinds _ = false

-- The fields that only some kinds have: `...(bt.kind === "task" && { parallelism: 1 })`.
abbrev kind_fields : BlockKind → CanvasBlock → CanvasBlock
kind_fields task b = record b { parallelism = some (pos 1) }
kind_fields scheduled b = record b { schedule = some "" }
kind_fields stateful b = record b { stateful_storage = some "" }
kind_fields _ b = b

pub new_block : String → BlockKind → ℤ → ℤ → CanvasBlock
new_block id kind dx dy = kind_fields kind (record {
  id = id;
  kind = kind;
  name = kind_name kind;
  image = default_image kind;
  port = pos (default_port kind);
  is_public = one_of_web kind;
  replicas = if no_replica_kinds kind then pos 0 else pos 1;
  health_path = if has_health_path kind then "/healthz" else "";
  x = at_least_zero (pos 200 +ℤ dx);
  y = at_least_zero (pos 100 +ℤ dy);
  schedule = none;
  parallelism = none;
  retries = none;
  engine = none;
  version = none;
  storage = none;
  backups = none;
  stateful_storage = none;
  ordered_startup = none;
})

-- `generateId()` at the time `now`.
pub generate_id : ℕ → ℕ → String
generate_id now next = template ("block-" ∷ decimal now ∷ "-" ∷ decimal next ∷ [])

-- A block of the palette is dropped.
pub drop_palette : ℕ → BlockKind → ℤ → ℤ → Canvas → Canvas
unfolding new_block
drop_palette now kind dx dy c =
    let b = new_block (generate_id now c.next_block_id) kind dx dy in
    record c {
      state = record c.state { blocks = c.state.blocks ++ b ∷ [] };
      selected_id = some b.id;
      next_block_id = suc c.next_block_id;
    }

-- `state.blocks.map(b => b.id === id ? f(b) : b)`
abbrev pub change_block : String → (CanvasBlock → CanvasBlock) → CanvasState → CanvasState
change_block id f s = record s { blocks = map (λ b. if b.id == id then f b else b) s.blocks }

pub move_block : String → ℤ → ℤ → Canvas → Canvas
move_block id dx dy c = record c {
  state = change_block id (λ b. record b { x = b.x +ℤ dx; y = b.y +ℤ dy }) c.state;
}

-- What the panel can change of a block.
pub data Update : Type 0 where
  rename set_image set_schedule set_engine set_version set_storage set_stateful_storage :
      String → Update
  set_health_path : String → Update
  set_port set_replicas set_parallelism set_retries : Option ℤ → Update
  set_backups set_ordered_startup set_public : Bool → Update

pub apply_update : Update → CanvasBlock → CanvasBlock
apply_update (rename s) b = record b { name = s }
apply_update (set_image s) b = record b { image = s }
apply_update (set_schedule s) b = record b { schedule = some s }
apply_update (set_engine s) b = record b { engine = some s }
apply_update (set_version s) b = record b { version = some s }
apply_update (set_storage s) b = record b { storage = some s }
apply_update (set_stateful_storage s) b = record b { stateful_storage = some s }
apply_update (set_health_path s) b = record b { health_path = s }
apply_update (set_port n) b = record b { port = parsed_or (pos 0) n }
apply_update (set_replicas n) b = record b { replicas = parsed_or (pos 1) n }
apply_update (set_parallelism n) b = record b { parallelism = some (parsed_or (pos 1) n) }
apply_update (set_retries n) b = record b { retries = some (parsed_or (pos 0) n) }
apply_update (set_backups v) b = record b { backups = some v }
apply_update (set_ordered_startup v) b = record b { ordered_startup = some v }
apply_update (set_public v) b = record b { is_public = v }

pub handle_update : String → Update → Canvas → Canvas
handle_update id u c = record c { state = change_block id (apply_update u) c.state }

-- `selectedId === id`
abbrev pub is_selected : String → Option String → Bool
is_selected id none = false
is_selected id (some s) = s == id

pub handle_remove : String → Canvas → Canvas
handle_remove id c = record c {
  state = record {
    blocks = filter (λ b. not (b.id == id)) c.state.blocks;
    connections = filter (λ k. not (k.from == id) && not (k.to == id)) c.state.connections;
  };
  selected_id = if is_selected id c.selected_id then none else c.selected_id;
}

pub handle_connect : String → String → Canvas → Canvas
handle_connect from_id to_id c =
    if any (λ k. k.from == from_id && k.to == to_id) c.state.connections then c else record c {
      state = record c.state {
        connections = c.state.connections ++ record { from = from_id; to = to_id } ∷ [];
      };
    }
