-- ===== src/Guided/Source.antt =====
-- `generateRecipeSource` of GuidedWizard.tsx.
pub mod Extras
mod Tests
use mozza.Prelude.{
  ℤ, pos, zero, suc, negsuc, decimal_int, Bool, true, false, not, ◌&&◌, ◌||◌, Option, none, some,
  List, [], ◌∷◌, ◌++◌, map, String, template, join, trim_end, capitalize, find, includes, ◌==◌,
  string_eq, if◌then◌else◌,
}
use mozza.Interview.Combo.{or_else}
use mozza.Recipe.{when, given}
use mozza.Guided.{GuidedService, DbOption, db_options, RunMode, is_on_schedule}

-- Whether a port counts as true.
abbrev is_port : ℤ → Bool
is_port (pos zero) = false
is_port (pos (suc n)) = true
is_port (negsuc n) = true

abbrev what_lines : GuidedService → List String
what_lines svc =
    if svc.kind == "database" && given svc.engine
    then template (
        "  "
        ∷ join ", "
            (svc.engine ∷ when (given svc.storage) svc.storage ++ when svc.backups "daily backups")
        ∷ [])
      ∷ []
    else when (given svc.image) (template ("  from image " ∷ svc.image ∷ []))

abbrev port_lines : GuidedService → List String
port_lines svc =
    if svc.is_public && is_port svc.port
    then template ("  open to the public on port " ∷ decimal_int svc.port ∷ []) ∷ []
    else when
        (is_port svc.port && not (includes ("worker" ∷ "scheduled" ∷ "database" ∷ []) svc.kind))
        (template ("  on port " ∷ decimal_int svc.port ∷ []))

abbrev run_every : GuidedService → String
run_every svc = template ("  run every \"" ∷ svc.schedule ∷ "\"" ∷ [])

pub needs : GuidedService → List String
needs svc = when svc.needs_db (or_else svc.db_engine "database") ++ when svc.needs_cache "cache"

abbrev need_lines : List String → List String
need_lines [] = []
need_lines (n ∷ ns) = template ("  needs " ∷ join " and " (n ∷ ns) ∷ []) ∷ []

-- The lines of one service.
pub service_lines : GuidedService → List String
unfolding is_on_schedule needs
service_lines svc =
    template (capitalize (or_else svc.name svc.kind) ∷ ":" ∷ []) ∷ what_lines svc
    ++ (port_lines svc
        ++ (when (svc.grpc_enabled && is_port svc.grpc_port)
              (template ("  on port " ∷ decimal_int svc.grpc_port ∷ " as grpc" ∷ []))
            ++ (when (svc.kind == "scheduled" && given svc.schedule) (run_every svc)
                ++ (when (svc.kind == "worker" && is_on_schedule svc.run_mode && given svc.schedule)
                      (run_every svc)
                    ++ (need_lines (needs svc) ++ "" ∷ [])))))

pub services_lines : List GuidedService → List String
unfolding service_lines
services_lines [] = []
services_lines (svc ∷ svcs) = service_lines svc ++ services_lines svcs

-- A slice that is added for what the services need.
pub data Slice : Type 0 where
  db : DbOption → Slice
  redis : Slice

-- The text by which `addedExtras` knows it.
abbrev pub slice_key : Slice → String
slice_key (db d) = d.id
slice_key redis = "redis"

abbrev slice_of : Option DbOption → List Slice
slice_of none = []
slice_of (some d) = db d ∷ []

abbrev pub db_extra : List String → GuidedService → List Slice
db_extra added svc =
    if svc.needs_db && not (includes added svc.db_engine)
    then slice_of (find (λ d. d.id == svc.db_engine) db_options)
    else []

abbrev pub cache_extra : List String → GuidedService → List Slice
cache_extra added svc = if svc.needs_cache && not (includes added "redis") then redis ∷ [] else []

-- The slices that the second loop adds, after those that are added already.
pub extras : List String → List GuidedService → List Slice
extras added [] = []
extras added (svc ∷ svcs) =
    let dbs = db_extra added svc in
    let with_db = map slice_key dbs ++ added in
    let caches = cache_extra with_db svc in
    dbs ++ (caches ++ extras (map slice_key caches ++ with_db) svcs)

slice_lines : Slice → List String
slice_lines (db d) =
    template (capitalize d.label ∷ ":" ∷ []) ∷ template ("  " ∷ d.id ∷ ", 10Gi" ∷ []) ∷ "" ∷ []
slice_lines redis = "Cache:" ∷ "  redis" ∷ "" ∷ []

extra_lines : List Slice → List String
unfolding slice_lines
extra_lines [] = []
extra_lines (s ∷ ss) = slice_lines s ++ extra_lines ss

pub generate_recipe_source : String → List GuidedService → String
unfolding services_lines extras extra_lines
generate_recipe_source app_name svcs = trim_end (
    join "\n" (
      template ("App: " ∷ app_name ∷ []) ∷ "" ∷ services_lines svcs
      ++ extra_lines (extras [] svcs)))
