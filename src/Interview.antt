-- ===== src/Interview.antt =====
-- ui/src/lib/interview-types.ts: what the order wizard knows of a service and of the whole order.
pub mod Steps
pub mod Combo
use mozza.Prelude.{
  ℕ, ◌≡◌, refl, ◌↔◌, Bool, true, false, Option, List, [], ◌∷◌, String, arith, Comparison,
}

pub data WizardTarget : Type 0 where
  local kitchen : WizardTarget

pub data Trait : Type 0 where
  web_facing stateful worker : Trait

pub data WorkloadType : Type 0 where
  replicaset statefulset daemonset cronjob : WorkloadType

pub data TraitCombo : Type 0 where
  website api_database background_worker database_only custom : TraitCombo

pub data FastLaneSource : Type 0 where
  alias template github : FastLaneSource

pub data ResourceSize : Type 0 where
  small medium large extra_large : ResourceSize

pub data DependencyType : Type 0 where
  database cache queue : DependencyType

pub record DependencyConfig : Type 0 where
  pub type : DependencyType
  pub enabled : Bool
  pub engine : String
  pub version : String
  pub storage : String

-- `auto` is optional in the source, and absent reads as false.
pub record EnvVarEntry : Type 0 where
  pub key : String
  pub value : String
  pub is_secret : Bool
  pub auto : Bool

pub data HealthCheckType : Type 0 where
  http tcp : HealthCheckType

pub record HealthCheckDefaults : Type 0 where
  pub enabled : Bool
  pub type : HealthCheckType
  pub path : String
  pub port : ℕ
  pub interval_seconds : ℕ

pub record ResourceDefaults : Type 0 where
  pub cpu_request : String
  pub cpu_limit : String
  pub memory_request : String
  pub memory_limit : String

pub record ScalingDefaults : Type 0 where
  pub enabled : Bool
  pub min_replicas : ℕ
  pub max_replicas : ℕ
  pub cpu_target : ℕ

pub record ServiceInterviewState : Type 0 where
  pub service_name : String
  pub needs_services : List String
  pub alias_name : String
  pub alias_image : String
  pub replicas : ℕ
  pub traits : List Trait
  pub workload_type : WorkloadType
  pub workload_overridden : Bool
  pub schedule : String
  pub port : ℕ
  pub is_public : Bool
  pub domain : String
  pub dependencies : List DependencyConfig
  pub env_vars : List EnvVarEntry
  pub health_check : HealthCheckDefaults
  pub resources : ResourceDefaults
  pub scaling : ScalingDefaults

-- The optional fields of the fast lane are always given by its one user, the order wizard.
pub record WizardState : Type 0 where
  pub services : List ServiceInterviewState
  pub active_service_index : ℕ
  pub current_step : ℕ
  pub target : WizardTarget
  pub cluster_id : String
  pub fast_lane : Bool
  pub selected_combo : Option TraitCombo
  pub source : FastLaneSource
  pub selected_template_id : Option String
  pub selected_alias_id : Option String
  pub resource_size : ResourceSize

abbrev pub postgres_16 : Bool → DependencyConfig
postgres_16 on = record {
  type = database;
  enabled = on;
  engine = "postgres";
  version = "16";
  storage = "10Gi";
}

abbrev pub redis_7 : DependencyConfig
redis_7 = record { type = cache; enabled = false; engine = "redis"; version = "7"; storage = "" }

abbrev pub create_default_service_state : ServiceInterviewState
create_default_service_state = record {
  service_name = "";
  needs_services = [];
  alias_name = "";
  alias_image = "";
  replicas = 1;
  traits = [];
  workload_type = replicaset;
  workload_overridden = false;
  schedule = "";
  port = 8080;
  is_public = false;
  domain = "";
  dependencies = postgres_16 false ∷ redis_7 ∷ [];
  env_vars = [];
  health_check = record {
    enabled = true;
    type = http;
    path = "/health";
    port = 8080;
    interval_seconds = 10;
  };
  resources = record {
    cpu_request = "250m";
    cpu_limit = "500m";
    memory_request = "128Mi";
    memory_limit = "256Mi";
  };
  scaling = record { enabled = false; min_replicas = 1; max_replicas = 5; cpu_target = 80 };
}

-- `===` on the literal types.
abbrev pub trait_beq : Trait → Trait → Bool
trait_beq web_facing web_facing = true
trait_beq stateful stateful = true
trait_beq worker worker = true
trait_beq _ _ = false

pub trait_beq_iff : (a b : Trait) → (trait_beq a b ≡ true) ↔ (a ≡ b)
trait_beq_iff a b = ground arith

instance abbrev pub trait_eq : Comparison Trait
trait_eq = record { same_iff = trait_beq_iff; same = trait_beq }

abbrev pub dependency_type_beq : DependencyType → DependencyType → Bool
dependency_type_beq database database = true
dependency_type_beq cache cache = true
dependency_type_beq queue queue = true
dependency_type_beq _ _ = false

pub dependency_type_beq_iff : (a b : DependencyType) → (dependency_type_beq a b ≡ true) ↔ (a ≡ b)
dependency_type_beq_iff a b = ground arith

instance abbrev pub dependency_type_eq : Comparison DependencyType
dependency_type_eq = record { same_iff = dependency_type_beq_iff; same = dependency_type_beq }

abbrev pub workload_type_beq : WorkloadType → WorkloadType → Bool
workload_type_beq replicaset replicaset = true
workload_type_beq statefulset statefulset = true
workload_type_beq daemonset daemonset = true
workload_type_beq cronjob cronjob = true
workload_type_beq _ _ = false

pub workload_type_beq_iff : (a b : WorkloadType) → (workload_type_beq a b ≡ true) ↔ (a ≡ b)
workload_type_beq_iff a b = ground arith

instance abbrev pub workload_type_eq : Comparison WorkloadType
workload_type_eq = record { same_iff = workload_type_beq_iff; same = workload_type_beq }

abbrev pub is_kitchen : WizardTarget → Bool
is_kitchen local = false
is_kitchen kitchen = true

abbrev pub is_http : HealthCheckType → Bool
is_http http = true
is_http tcp = false
