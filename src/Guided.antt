-- ===== src/Guided.antt =====
-- The guided wizard of ui/src/components/deploy/GuidedWizard.tsx: its types, its defaults, and the
-- edits of its services. A port is the whole number that was entered, and 0 where none was.
pub mod Source
pub mod Wizard
pub mod Kept
use mozza.Prelude.{
  ℕ, zero, suc, ◌+◌, ◌-◌, ℤ, pos, parsed_or, Bool, true, false, not, ◌&&◌, ◌||◌, Option, none, some,
  List, [], ◌∷◌, ◌++◌, String, template, decimal, find, find_index, any, length, ltb, ◌==◌,
  string_eq, if◌then◌else◌,
}
use mozza.Interview.Combo.{or_else}
use mozza.Order.Slices.{remove_at}

pub data DeployType : Type 0 where
  webapp api worker scheduled database fullstack : DeployType

pub data RunMode : Type 0 where
  forever on_schedule : RunMode

pub record GuidedService : Type 0 where
  pub name : String
  pub image : String
  pub port : ℤ
  pub is_public : Bool
  pub kind : String
  pub schedule : String
  pub engine : String
  pub storage : String
  pub backups : Bool
  pub needs_db : Bool
  pub db_engine : String
  pub needs_cache : Bool
  pub grpc_enabled : Bool
  pub grpc_port : ℤ
  pub run_mode : RunMode

-- The types that the first step offers.
abbrev pub is_offered : DeployType → Bool
is_offered fullstack = true
is_offered webapp = true
is_offered database = true
is_offered worker = true
is_offered _ = false

-- The name of a type, as text.
pub type_name : DeployType → String
type_name webapp = "webapp"
type_name api = "api"
type_name worker = "worker"
type_name scheduled = "scheduled"
type_name database = "database"
type_name fullstack = "fullstack"

pub record DbOption : Type 0 where
  pub id : String
  pub label : String
  pub image : String
  pub port : ℤ

abbrev pub db_options : List DbOption
db_options =
    record { id = "postgres"; label = "PostgreSQL"; image = "postgres:16-alpine"; port = pos 5432 }
    ∷ record { id = "mysql"; label = "MySQL"; image = "mysql:8"; port = pos 3306 }
    ∷ record { id = "mongo"; label = "MongoDB"; image = "mongo:7"; port = pos 27017 }
    ∷ []

abbrev pub is_option : String → Bool
is_option id = any (λ d. d.id == id) db_options

abbrev base : GuidedService
base = record {
  name = "";
  image = "";
  port = pos 8080;
  is_public = true;
  kind = "web";
  schedule = "";
  engine = "";
  storage = "";
  backups = false;
  needs_db = false;
  db_engine = "postgres";
  needs_cache = false;
  grpc_enabled = false;
  grpc_port = pos 9090;
  run_mode = forever;
}

abbrev pub make_default_service : DeployType → GuidedService
make_default_service webapp = record base { kind = "web"; is_public = true; port = pos 8080 }
make_default_service api = record base { kind = "web"; is_public = true; port = pos 8080 }
make_default_service worker = record base {
  kind = "worker";
  port = pos 0;
  is_public = false;
  run_mode = forever;
}
make_default_service scheduled = record base {
  kind = "scheduled";
  port = pos 0;
  is_public = false;
  schedule = "0 * * * *";
}
make_default_service database = record base {
  kind = "database";
  engine = "postgres";
  storage = "10Gi";
  is_public = false;
  port = pos 5432;
  image = "postgres:16-alpine";
}
make_default_service fullstack = record base { kind = "web"; is_public = true }

-- The controls of the details of one service.
pub data Detail : Type 0 where
  pick_engine pick_db_engine set_storage set_image set_schedule : String → Detail
  set_port : Option ℤ → Detail
  toggle_backups toggle_public toggle_needs_db toggle_needs_cache : Detail
  set_run_mode : RunMode → Detail

pub is_on_schedule : RunMode → Bool
is_on_schedule forever = false
is_on_schedule on_schedule = true

-- Which of them `StepDetails` shows.
pub shows_detail : DeployType → GuidedService → Detail → Bool
unfolding is_on_schedule
shows_detail database s (pick_engine id) = is_option id
shows_detail database s (set_storage v) = true
shows_detail database s toggle_backups = true
shows_detail webapp s (set_image v) = true
shows_detail webapp s (set_port v) = true
shows_detail webapp s toggle_public = true
shows_detail webapp s toggle_needs_db = true
shows_detail webapp s (pick_db_engine id) = s.needs_db && is_option id
shows_detail webapp s toggle_needs_cache = true
shows_detail api s (set_image v) = true
shows_detail api s (set_port v) = true
shows_detail api s toggle_public = true
shows_detail api s toggle_needs_db = true
shows_detail api s (pick_db_engine id) = s.needs_db && is_option id
shows_detail api s toggle_needs_cache = true
shows_detail worker s (set_image v) = true
shows_detail worker s (set_run_mode m) = true
shows_detail worker s (set_schedule v) = is_on_schedule s.run_mode
shows_detail scheduled s (set_image v) = true
shows_detail scheduled s (set_schedule v) = true
shows_detail scheduled s toggle_needs_db = true
shows_detail scheduled s (pick_db_engine id) = s.needs_db && is_option id
shows_detail _ s _ = false

-- `db?.image || ""` and `db?.port || 5432`
abbrev with_engine : String → Option DbOption → GuidedService → GuidedService
with_engine id none s = record s { engine = id; image = ""; port = pos 5432; name = id }
with_engine id (some d) s = record s {
  engine = id;
  image = or_else d.image "";
  port = parsed_or (pos 5432) (some d.port);
  name = id;
}

pub change_detail : Detail → GuidedService → GuidedService
unfolding is_on_schedule
change_detail (pick_engine id) s = with_engine id (find (λ d. d.id == id) db_options) s
change_detail (pick_db_engine id) s = record s { db_engine = id }
change_detail (set_storage v) s = record s { storage = v }
change_detail (set_image v) s = record s { image = v }
change_detail (set_schedule v) s = record s { schedule = v }
change_detail (set_port v) s = record s { port = parsed_or (pos 0) v }
change_detail toggle_backups s = record s { backups = not s.backups }
change_detail toggle_public s = record s { is_public = not s.is_public }
change_detail toggle_needs_db s = record s { needs_db = not s.needs_db }
change_detail toggle_needs_cache s = record s { needs_cache = not s.needs_cache }
change_detail (set_run_mode m) s = record s {
  run_mode = m;
  kind = if is_on_schedule m then "scheduled" else "worker";
}

-- `services.map((s, i) => (i === index ? f(s) : s))`
abbrev pub update_at {ℓ} : {A : Type ℓ} → ℕ → (A → A) → List A → List A
update_at i f [] = []
update_at zero f (x ∷ xs) = f x ∷ xs
update_at (suc i) f (x ∷ xs) = x ∷ update_at i f xs

-- The kinds that a service of an application of several can have.
pub data ServiceType : Type 0 where
  web_type api_type worker_type : ServiceType

abbrev service_kind : ServiceType → String
service_kind web_type = "web"
service_kind api_type = "api"
service_kind worker_type = "worker"

-- The controls of `FullStackDetails`.
pub data Change : Type 0 where
  add_service : Change
  remove_service : ℕ → Change
  rename image_of : ℕ → String → Change
  port_of : ℕ → Option ℤ → Change
  kind_of : ℕ → ServiceType → Change

abbrev of_kind : ServiceType → GuidedService → GuidedService
of_kind t s = record s {
  kind = service_kind t;
  is_public = service_kind t == "web";
  port = if service_kind t == "worker" then pos 0 else pos 8080;
}

-- The port of a worker is not shown.
abbrev with_port : Option ℤ → GuidedService → GuidedService
with_port v s = if s.kind == "worker" then s else record s { port = parsed_or (pos 0) v }

pub change_services : Change → List GuidedService → List GuidedService
change_services add_service svcs =
    if ltb (length svcs) 10
    then svcs
      ++ record (make_default_service api) {
        name = template ("service-" ∷ decimal (length svcs + 1) ∷ []);
        kind = "web";
      }
        ∷ []
    else svcs
change_services (remove_service i) svcs = if ltb 1 (length svcs) then remove_at i svcs else svcs
change_services (rename i v) svcs = update_at i (λ s. record s { name = v }) svcs
change_services (image_of i v) svcs = update_at i (λ s. record s { image = v }) svcs
change_services (port_of i v) svcs = update_at i (with_port v) svcs
change_services (kind_of i t) svcs = update_at i (of_kind t) svcs

abbrev pub has_db : List GuidedService → Bool
has_db svcs = any (λ s. s.needs_db || s.kind == "database") svcs

abbrev pub has_cache : List GuidedService → Bool
has_cache svcs = any (λ s. s.needs_cache) svcs

abbrev pub has_kind : String → List GuidedService → Bool
has_kind kind svcs = any (λ s. s.kind == kind) svcs

abbrev add_extra_service : DeployType → String → List GuidedService → List GuidedService
add_extra_service t extra svcs = svcs ++ record (make_default_service t) { name = extra } ∷ []

abbrev reverse {ℓ} : {A : Type ℓ} → List A → List A
reverse [] = []
reverse (x ∷ xs) = reverse xs ++ x ∷ []

-- Removes the last service of the kind.
abbrev remove_extra_by_kind : String → List GuidedService → List GuidedService
remove_extra_by_kind kind svcs = elim (find_index (λ s. s.kind == kind) (reverse svcs)) [
  | none ↦ svcs
  | some idx ↦ remove_at (length svcs - 1 - idx) svcs
]

-- The controls of `StepExtras`.
pub data Extra : Type 0 where
  add_db remove_db add_cache remove_cache : Extra
  pick_extra_db : String → Extra
  add_worker remove_worker add_scheduled remove_scheduled : Extra

abbrev is_worker : DeployType → Bool
is_worker worker = true
is_worker _ = false

abbrev is_scheduled : DeployType → Bool
is_scheduled scheduled = true
is_scheduled _ = false

-- Which of them are shown.
pub shows_extra : DeployType → List GuidedService → Extra → Bool
shows_extra t svcs add_db = not (has_db svcs)
shows_extra t svcs remove_db = has_db svcs
shows_extra t svcs (pick_extra_db id) = has_db svcs && is_option id
shows_extra t svcs add_cache = not (has_cache svcs)
shows_extra t svcs remove_cache = has_cache svcs
shows_extra t svcs add_worker = not (has_kind "worker" svcs) && not (is_worker t)
shows_extra t svcs remove_worker = has_kind "worker" svcs && not (is_worker t)
shows_extra t svcs add_scheduled = not (has_kind "scheduled" svcs) && not (is_scheduled t)
shows_extra t svcs remove_scheduled = has_kind "scheduled" svcs && not (is_scheduled t)

pub change_extras : Extra → List GuidedService → List GuidedService
change_extras add_db svcs = update_at 0 (λ s. record s { needs_db = true }) svcs
change_extras remove_db svcs = update_at 0 (λ s. record s { needs_db = false }) svcs
change_extras (pick_extra_db id) svcs = update_at 0 (λ s. record s { db_engine = id }) svcs
change_extras add_cache svcs = update_at 0 (λ s. record s { needs_cache = true }) svcs
change_extras remove_cache svcs = update_at 0 (λ s. record s { needs_cache = false }) svcs
change_extras add_worker svcs = add_extra_service worker "worker" svcs
change_extras remove_worker svcs = remove_extra_by_kind "worker" svcs
change_extras add_scheduled svcs = add_extra_service scheduled "cron" svcs
change_extras remove_scheduled svcs = remove_extra_by_kind "scheduled" svcs
