-- ===== src/Recipe.antt =====
-- ui/src/lib/recipe-generator.ts: the recipe of a wizard state, line by line.
pub mod Needs
pub mod Closed
mod Tests
use mozza.Prelude.{
  ℕ, Bool, true, false, not, ◌&&◌, ◌||◌, List, [], ◌∷◌, ◌++◌, String, template, decimal, join,
  trim_end, includes, ltb, ◌==◌, string_eq, if◌then◌else◌,
}
use mozza.Interview.{
  WizardTarget, WizardState, ServiceInterviewState, DependencyConfig, DependencyType, database,
  cache, queue, EnvVarEntry, workload_type_eq, cronjob, statefulset, is_kitchen, is_http,
}
use mozza.Interview.Combo.{or_else}

-- A line that is pushed under a condition.
abbrev pub when : Bool → String → List String
when b line = if b then line ∷ [] else []

-- Truthiness of a text.
abbrev pub given : String → Bool
given s = not (s == "")

abbrev pub db_slice_name : String → String
db_slice_name app_name = template (or_else app_name "app" ∷ "-db" ∷ [])

abbrev pub dependency_name : String → DependencyConfig → List String
dependency_name alias_name dep =
    if dep.enabled
    then elim dep.type [
      | database ↦ db_slice_name alias_name ∷ []
      | cache ↦ "cache" ∷ []
      | queue ↦ []
    ]
    else []

pub dependency_names_from : String → List DependencyConfig → List String
dependency_names_from alias_name [] = []
dependency_names_from alias_name (dep ∷ deps) =
    dependency_name alias_name dep ++ dependency_names_from alias_name deps

pub get_dependency_names : ServiceInterviewState → List String
unfolding dependency_names_from
get_dependency_names svc = dependency_names_from svc.alias_name svc.dependencies

-- `lines.push(…)` for each setting that has a key and a value.
env_lines : List EnvVarEntry → List String
env_lines [] = []
env_lines (env ∷ envs) =
    when (given env.key && given env.value)
      (template ("  set " ∷ env.key ∷ " to \"" ∷ env.value ∷ "\"" ∷ []))
    ++ env_lines envs

abbrev port_line : ServiceInterviewState → WizardTarget → List String
port_line svc target = when (ltb 0 svc.port) (
    if svc.is_public && is_kitchen target
    then template ("  open to the public on port " ∷ decimal svc.port ∷ [])
    else template ("  on port " ∷ decimal svc.port ∷ []))

abbrev needs_line : List String → List String
needs_line [] = []
needs_line (n ∷ ns) = template ("  needs " ∷ join " and " (n ∷ ns) ∷ []) ∷ []

-- The lines that one service pushes.
pub generate_service_slice : ServiceInterviewState → WizardTarget → List String
unfolding env_lines get_dependency_names
generate_service_slice svc target =
    template (or_else svc.alias_name "service" ∷ ":" ∷ [])
      ∷ when (given svc.alias_image)
          (template ("  from image " ∷ or_else svc.alias_name svc.alias_image ∷ []))
    ++ (when (ltb 1 svc.replicas) (template ("  run " ∷ decimal svc.replicas ∷ " copies" ∷ []))
        ++ (when (svc.workload_type == cronjob && given svc.schedule)
              (template ("  run every \"" ∷ svc.schedule ∷ "\"" ∷ []))
            ++ (port_line svc target
                ++ (when (given svc.domain && svc.is_public && is_kitchen target)
                      (template ("  domain " ∷ svc.domain ∷ []))
                    ++ (needs_line (get_dependency_names svc)
                        ++ (env_lines svc.env_vars
                            ++ (when
                                  (is_kitchen target
                                    && svc.health_check.enabled
                                    && is_http svc.health_check.type
                                    && given svc.health_check.path)
                                  (template ("  health check " ∷ svc.health_check.path ∷ []))
                                ++ (when (given svc.resources.cpu_limit)
                                      (template ("  limit cpu to " ∷ svc.resources.cpu_limit ∷ []))
                                    ++ (when (given svc.resources.memory_limit) (
                                          template (
                                            "  limit memory to " ∷ svc.resources.memory_limit ∷ []))
                                        ++ (when (svc.workload_type == statefulset)
                                              "  each copy needs its own storage of 10Gi"
                                            ++ "" ∷ []))))))))))

abbrev pub type_text : DependencyType → String
type_text database = "database"
type_text cache = "cache"
type_text queue = "queue"

abbrev pub dep_key : DependencyConfig → String
dep_key dep = template (type_text dep.type ∷ "-" ∷ dep.engine ∷ [])

-- The shorthand "engine version, storage" of a database.
abbrev db_parts : DependencyConfig → List String
db_parts dep =
    template (
      or_else dep.engine "postgres"
      ∷ (if given dep.version then template (" " ∷ dep.version ∷ []) else "")
      ∷ [])
    ∷ when (given dep.storage) dep.storage

pub generate_db_slice : DependencyConfig → String → List String
generate_db_slice dep app_name =
    template (db_slice_name app_name ∷ ":" ∷ [])
    ∷ template ("  " ∷ join ", " (db_parts dep) ∷ [])
    ∷ ""
    ∷ []

abbrev pub generate_cache_slice : List String
generate_cache_slice = "cache:" ∷ "  redis 7" ∷ "" ∷ []

abbrev pub dep_slice : DependencyConfig → String → List String
dep_slice dep app_name = elim dep.type [
  | database ↦ generate_db_slice dep app_name
  | cache ↦ generate_cache_slice
  | queue ↦ []
]

-- `addedDeps` and the lines pushed so far.
pub record Progress : Type 0 where
  pub added : List String
  pub lines : List String

-- One round of the inner loop of `generateDependencySlices`, `continue` included.
pub add_dependency : String → DependencyConfig → Progress → Progress
unfolding generate_db_slice
add_dependency app_name dep p =
    if not dep.enabled || includes p.added (dep_key dep)
    then p
    else record p { added = p.added ++ dep_key dep ∷ []; lines = p.lines ++ dep_slice dep app_name }

pub add_dependencies : String → List DependencyConfig → Progress → Progress
add_dependencies app_name [] p = p
add_dependencies app_name (dep ∷ deps) p =
    add_dependencies app_name deps (add_dependency app_name dep p)

pub add_services : List ServiceInterviewState → Progress → Progress
add_services [] p = p
add_services (svc ∷ svcs) p = add_services svcs (add_dependencies svc.alias_name svc.dependencies p)

pub generate_dependency_slices : List ServiceInterviewState → List String
unfolding add_services add_dependencies add_dependency
generate_dependency_slices svcs = (add_services svcs (record { added = []; lines = [] })).lines

-- `Map.set`: a key that is there keeps its place.
pub set_image : String → String → List (String × String) → List (String × String)
set_image k v [] = (k, v) ∷ []
set_image k v ((j, w) ∷ m) = if j == k then (j, v) ∷ m else (j, w) ∷ set_image k v m

pub collect_images : List ServiceInterviewState → List (String × String) → List (String × String)
collect_images [] m = m
collect_images (svc ∷ svcs) m = collect_images svcs (
    if given svc.alias_name && given svc.alias_image
    then set_image svc.alias_name svc.alias_image m
    else m)

pub image_lines : List (String × String) → List String
image_lines [] = []
image_lines ((alias, image) ∷ m) = template ("  " ∷ alias ∷ ": " ∷ image ∷ []) ∷ image_lines m

abbrev pub images_section : List (String × String) → List String
images_section [] = []
images_section (x ∷ m) = "Images:" ∷ image_lines (x ∷ m) ++ "" ∷ []

pub service_slices : List ServiceInterviewState → WizardTarget → List String
service_slices [] target = []
service_slices (svc ∷ svcs) target = generate_service_slice svc target ++ service_slices svcs target

-- `firstService?.aliasName || "myapp"`
abbrev recipe_name : List ServiceInterviewState → String
recipe_name [] = "myapp"
recipe_name (svc ∷ svcs) = or_else svc.alias_name "myapp"

pub recipe_lines : WizardState → List String
unfolding collect_images set_image image_lines service_slices generate_service_slice
    generate_dependency_slices
recipe_lines state =
    template ("App: " ∷ recipe_name state.services ∷ [])
      ∷ ""
      ∷ images_section (collect_images state.services [])
    ++ (service_slices state.services state.target ++ generate_dependency_slices state.services)

pub generate_order_recipe : WizardState → String
unfolding recipe_lines
generate_order_recipe state = trim_end (join "\n" (recipe_lines state))
