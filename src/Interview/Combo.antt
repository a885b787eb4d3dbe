-- ===== src/Interview/Combo.antt =====
-- ui/src/lib/interview-engine.ts, its second half: the presets of the fast lane.
pub mod Presets
mod Tests
use mozza.Prelude.{
  ℕ, Bool, true, false, not, Option, none, some, List, [], ◌∷◌, ◌++◌, String, filter, find,
  template as text, ◌==◌, string_eq, if◌then◌else◌,
}
use mozza.Interview.{
  ServiceInterviewState, Trait, web_facing, stateful, worker, WorkloadType, replicaset, statefulset,
  TraitCombo, website, api_database, background_worker, database_only, custom, ResourceSize, small,
  medium, large, extra_large, ResourceDefaults, HealthCheckDefaults, http, tcp, DependencyConfig,
  database, EnvVarEntry, postgres_16, redis_7, dependency_type_eq,
}

pub record ComboPreset : Type 0 where
  pub traits : List Trait
  pub port : ℕ
  pub is_public : Bool
  pub workload_type : WorkloadType
  pub health_check : HealthCheckDefaults
  pub dependencies : List DependencyConfig

abbrev pub trait_combo_presets : TraitCombo → Option ComboPreset
trait_combo_presets website = some (record {
  traits = web_facing ∷ [];
  port = 3000;
  is_public = true;
  workload_type = replicaset;
  health_check = record {
    enabled = true;
    type = http;
    path = "/health";
    port = 3000;
    interval_seconds = 10;
  };
  dependencies = postgres_16 false ∷ redis_7 ∷ [];
})
trait_combo_presets api_database = some (record {
  traits = web_facing ∷ stateful ∷ [];
  port = 8080;
  is_public = true;
  workload_type = replicaset;
  health_check = record {
    enabled = true;
    type = http;
    path = "/health";
    port = 8080;
    interval_seconds = 10;
  };
  dependencies = postgres_16 true ∷ redis_7 ∷ [];
})
trait_combo_presets background_worker = some (record {
  traits = worker ∷ [];
  port = 0;
  is_public = false;
  workload_type = replicaset;
  health_check = record {
    enabled = false;
    type = http;
    path = "/health";
    port = 8080;
    interval_seconds = 10;
  };
  dependencies = postgres_16 false ∷ redis_7 ∷ [];
})
trait_combo_presets database_only = some (record {
  traits = stateful ∷ [];
  port = 5432;
  is_public = false;
  workload_type = statefulset;
  health_check = record {
    enabled = false;
    type = tcp;
    path = "";
    port = 5432;
    interval_seconds = 10;
  };
  dependencies = postgres_16 true ∷ redis_7 ∷ [];
})
trait_combo_presets custom = none

abbrev sized : String → String → String → String → ResourceDefaults
sized cpu_request cpu_limit memory_request memory_limit = record {
  cpu_request = cpu_request;
  cpu_limit = cpu_limit;
  memory_request = memory_request;
  memory_limit = memory_limit;
}

abbrev pub resource_size_map : ResourceSize → ResourceDefaults
resource_size_map small = sized "100m" "200m" "64Mi" "128Mi"
resource_size_map medium = sized "250m" "500m" "128Mi" "256Mi"
resource_size_map large = sized "500m" "1000m" "256Mi" "512Mi"
resource_size_map extra_large = sized "1000m" "2000m" "512Mi" "1024Mi"

-- `a || b` on texts.
abbrev pub or_else : String → String → String
or_else s d = if s == "" then d else s

pub build_database_url : String → String → String
build_database_url app_name engine =
    let name = or_else app_name "app" in
    if engine == "postgres"
    then text ("postgres://" ∷ name ∷ "-db:5432/" ∷ name ∷ [])
    else if engine == "mysql"
    then text ("mysql://" ∷ name ∷ "-db:3306/" ∷ name ∷ [])
    else if engine == "mongo"
    then text ("mongodb://" ∷ name ∷ "-db:27017/" ∷ name ∷ [])
    else text ("postgres://" ∷ name ∷ "-db:5432/" ∷ name ∷ [])

-- `dbDep?.enabled ?? false` and `dbDep?.engine ?? "postgres"`.
abbrev dep_enabled : Option DependencyConfig → Bool
dep_enabled none = false
dep_enabled (some d) = d.enabled

abbrev dep_engine : Option DependencyConfig → String
dep_engine none = "postgres"
dep_engine (some d) = d.engine

-- `appName ?? service.aliasName`
abbrev given_or : Option String → String → String
given_or none s = s
given_or (some t) s = t

abbrev database_url : Option String → ServiceInterviewState → String → EnvVarEntry
database_url app_name service engine = record {
  key = "DATABASE_URL";
  value = build_database_url (given_or app_name service.alias_name) engine;
  is_secret = false;
  auto = true;
}

abbrev preset_env_vars : ComboPreset → ServiceInterviewState → Option String → List EnvVarEntry
preset_env_vars preset service app_name =
    let db_dep = find (λ d. d.type == database) preset.dependencies in
    let manual = filter (λ e. not e.auto) service.env_vars in
    if dep_enabled db_dep
    then manual ++ database_url app_name service (dep_engine db_dep) ∷ []
    else manual

pub apply_combo_defaults :
    TraitCombo → ServiceInterviewState → Option String → ServiceInterviewState
apply_combo_defaults combo service app_name = elim (trait_combo_presets combo) [
  | none ↦ service
  | some preset ↦ record service {
    traits = preset.traits;
    port = preset.port;
    is_public = preset.is_public;
    workload_type = preset.workload_type;
    health_check = preset.health_check;
    dependencies = preset.dependencies;
    env_vars = preset_env_vars preset service app_name;
  }
]
