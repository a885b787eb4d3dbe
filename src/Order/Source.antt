-- ===== src/Order/Source.antt =====
-- `buildRecipeSource` of OrderWizard.tsx: the recipe that the wizard orders.
pub mod Laws
pub mod Dependencies
pub mod Closed
mod Tests
use mozza.Prelude.{
  ℕ, Bool, true, false, not, ◌&&◌, ◌||◌, Option, none, some, List, [], ◌∷◌, ◌++◌, String, template,
  decimal, join, trim_end, lower, codes, find, length, ltb, ◌==◌, nat_eq, string_eq, codes_beq,
  if◌then◌else◌,
}
use mozza.Interview.{
  WizardState, ServiceInterviewState, DependencyConfig, DependencyType, database, cache,
  dependency_type_eq, TraitCombo, database_only, EnvVarEntry,
}
use mozza.Interview.Combo.{or_else}
use mozza.Recipe.{when, given}

-- What the first loop collects of the databases and caches.
pub record Shared : Type 0 where
  pub has_db : Bool
  pub db_engine : String
  pub db_version : String
  pub db_storage : String
  pub has_cache : Bool

abbrev pub enabled_dep : DependencyType → ServiceInterviewState → Option DependencyConfig
enabled_dep t svc = find (λ d. d.type == t && d.enabled) svc.dependencies

abbrev pub with_db : Option DependencyConfig → Shared → Shared
with_db none sh = sh
with_db (some d) sh = record sh {
  has_db = true;
  db_engine = d.engine;
  db_version = d.version;
  db_storage = d.storage;
}

abbrev pub with_cache : Option DependencyConfig → Shared → Shared
with_cache none sh = sh
with_cache (some d) sh = record sh { has_cache = true }

pub collect_shared : List ServiceInterviewState → Shared → Shared
collect_shared [] sh = sh
collect_shared (svc ∷ svcs) sh =
    collect_shared svcs (with_cache (enabled_dep cache svc) (with_db (enabled_dep database svc) sh))

abbrev pub nothing_shared : Shared
nothing_shared = record {
  has_db = false;
  db_engine = "postgres";
  db_version = "16";
  db_storage = "10Gi";
  has_cache = false;
}

-- The words that cannot be the name of a slice.
pub reserved : String → Bool
reserved s =
    codes_beq (lower s) (codes "app")
    || codes_beq (lower s) (codes "images")
    || codes_beq (lower s) (codes "namespace")
    || codes_beq (lower s) (codes "crds")

pub slice_name : String → ServiceInterviewState → String
slice_name name svc =
    let svc_name = or_else svc.service_name (or_else svc.alias_name name) in
    if reserved svc_name then template (svc_name ∷ "-svc" ∷ []) else svc_name

abbrev pub is_database_only : Option TraitCombo → Bool
is_database_only (some database_only) = true
is_database_only _ = false

abbrev pub db_name : String → String
db_name name = template (name ∷ "-db" ∷ [])

abbrev pub dep_needs : Option DependencyConfig → String → List String
dep_needs none need = []
dep_needs (some d) need = need ∷ []

-- The needs of the database and of the cache.
abbrev pub shared_needs : String → ServiceInterviewState → List String
shared_needs name svc =
    dep_needs (enabled_dep database svc) (db_name name) ++ dep_needs (enabled_dep cache svc) "cache"

pub needs_of : String → ServiceInterviewState → List String
needs_of name svc = svc.needs_services ++ shared_needs name svc

need_lines : List String → List String
need_lines [] = []
need_lines (dep ∷ deps) = template ("  needs " ∷ dep ∷ []) ∷ need_lines deps

setting_lines : List EnvVarEntry → List String
setting_lines [] = []
setting_lines (ev ∷ evs) =
    when (given ev.key) (template ("  set " ∷ ev.key ∷ " to \"" ∷ ev.value ∷ "\"" ∷ []))
    ++ setting_lines evs

abbrev port_line : ServiceInterviewState → List String
port_line svc =
    if svc.is_public && ltb 0 svc.port
    then template ("  open to the public on port " ∷ decimal svc.port ∷ []) ∷ []
    else when (ltb 0 svc.port) (template ("  on port " ∷ decimal svc.port ∷ []))

-- The lines of one service.
pub service_block : String → ServiceInterviewState → List String
unfolding reserved slice_name needs_of need_lines setting_lines
service_block name svc =
    template (slice_name name svc ∷ ":" ∷ [])
      ∷ when (given svc.alias_image) (template ("  from image " ∷ svc.alias_image ∷ []))
    ++ (port_line svc
        ++ (when (svc.health_check.enabled && given svc.health_check.path)
              (template ("  health check " ∷ svc.health_check.path ∷ []))
            ++ (when (ltb 1 svc.replicas)
                  (template ("  run " ∷ decimal svc.replicas ∷ " copies" ∷ []))
                ++ (need_lines (needs_of name svc) ++ (setting_lines svc.env_vars ++ "" ∷ [])))))

pub service_blocks : String → List ServiceInterviewState → List String
unfolding service_block
service_blocks name [] = []
service_blocks name (svc ∷ svcs) = service_block name svc ++ service_blocks name svcs

abbrev pub db_block : String → Shared → List String
db_block name sh =
    if sh.has_db
    then template (db_name name ∷ ":" ∷ [])
      ∷ template ("  " ∷ sh.db_engine ∷ " " ∷ sh.db_version ∷ ", " ∷ sh.db_storage ∷ [])
      ∷ ""
      ∷ []
    else []

abbrev pub cache_block : Shared → List String
cache_block sh = if sh.has_cache then "cache:" ∷ "  redis 7" ∷ "" ∷ [] else []

abbrev pub shared_blocks : String → Shared → List String
shared_blocks name sh = db_block name sh ++ cache_block sh

pub source_lines : String → WizardState → List String
unfolding collect_shared service_blocks
source_lines app_name state =
    let name = or_else app_name "app" in
    template ("App: " ∷ name ∷ [])
      ∷ ""
      ∷ (if length state.services == 1 && is_database_only state.selected_combo
          then []
          else service_blocks name state.services)
    ++ shared_blocks name (collect_shared state.services nothing_shared)

pub build_recipe_source : String → WizardState → String
unfolding source_lines
build_recipe_source app_name state = trim_end (join "\n" (source_lines app_name state))
