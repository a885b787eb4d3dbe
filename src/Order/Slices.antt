-- ===== src/Order/Slices.antt =====
-- The second step of OrderWizard.tsx: the handlers that edit the slices of the order. Each is the
-- function that the source hands to `setWizardState`. A handler of row `i` is there only while the
-- row is shown, and the rows are the services that have an image, numbered from 0.
pub mod Valid
pub mod Rows
pub mod Needs
pub mod Dependencies
mod Tests
use mozza.Prelude.{
  ℕ, zero, suc, ◌-◌, min, max, Bool, true, false, not, ◌||◌, Option, none, some, List, [], ◌∷◌,
  ◌++◌, map, String, length, get_elem?, set, filter, any, includes, trim, lower, codes, contains,
  hyphenate, ltb, ◌==◌, string_eq, nat_eq, if◌then◌else◌,
}
use mozza.Interview.{
  WizardState, WizardTarget, ServiceInterviewState, TraitCombo, custom, ResourceSize,
  create_default_service_state,
}
use mozza.Interview.Combo.{or_else, resource_size_map}

abbrev pub has_image : ServiceInterviewState → Bool
has_image s = not (s.alias_image == "")

-- The rows that are shown.
abbrev pub shown : WizardState → List ServiceInterviewState
shown w = filter has_image w.services

-- `svc.serviceName || svc.aliasName`
abbrev pub display_name : ServiceInterviewState → String
display_name s = or_else s.service_name s.alias_name

-- `services[i] = f(services[i])`, and no change where there is no such service.
abbrev pub update_service :
    ℕ → (ServiceInterviewState → ServiceInterviewState) → WizardState → WizardState
update_service i f w = elim (get_elem? w.services i) [
  | none ↦ w
  | some svc ↦ record w { services = set w.services i (f svc) }
]

pub select_slice : ℕ → WizardState → WizardState
select_slice i w = record w { active_service_index = i }

pub toggle_public : ℕ → WizardState → WizardState
toggle_public i w = update_service i (λ s. record s { is_public = not s.is_public }) w

-- `.filter((_, idx) => idx !== i)`
abbrev pub remove_at {ℓ} : {A : Type ℓ} → ℕ → List A → List A
remove_at i [] = []
remove_at zero (x ∷ xs) = xs
remove_at (suc i) (x ∷ xs) = x ∷ remove_at i xs

abbrev pub forget : String → ServiceInterviewState → ServiceInterviewState
forget name s = record s { needs_services = filter (λ n. not (n == name)) s.needs_services }

abbrev name_at : List ServiceInterviewState → ℕ → String
name_at svcs i = elim (get_elem? svcs i) [ none ↦ "" | some s ↦ display_name s ]

-- `if (services.length === 0) services.push(createDefaultServiceState())`
abbrev pub or_default : List ServiceInterviewState → List ServiceInterviewState
or_default [] = create_default_service_state ∷ []
or_default (s ∷ ss) = s ∷ ss

abbrev pub remaining : ℕ → List ServiceInterviewState → List ServiceInterviewState
remaining i svcs = or_default (map (forget (name_at svcs i)) (remove_at i svcs))

unfoldable pub remove_slice : ℕ → WizardState → WizardState
remove_slice i w =
    let services = remaining i w.services in
    record w {
      services = services;
      active_service_index = min w.active_service_index (length services - 1);
      selected_combo = if any has_image services then some custom else none;
    }

-- The row tells whether the other slice is needed; the service at the row's number is changed.
unfoldable pub toggle_need : ℕ → String → WizardState → WizardState
toggle_need i other w =
    let needed : Bool = elim (get_elem? (shown w) i) [
      | none ↦ false
      | some s ↦ includes s.needs_services other
    ] in
    update_service i
      (λ s. record s {
        needs_services =
            if needed
            then filter (λ n. not (n == other)) s.needs_services
            else s.needs_services ++ other ∷ [];
      })
      w

abbrev mentions : String → String → Bool
mentions image part = contains (lower image) (codes part)

-- The defaults that are read off the image.
abbrev detect : String → ServiceInterviewState → ServiceInterviewState
detect image s =
    if mentions image "postgres"
      || mentions image "mysql"
      || mentions image "mongo"
      || mentions image "mariadb"
    then record s {
      port =
          if mentions image "mysql" || mentions image "mariadb"
          then 3306
          else if mentions image "mongo"
          then 27017
          else 5432;
      is_public = false;
      health_check = record s.health_check { enabled = false };
    }
    else if mentions image "redis" || mentions image "memcache"
    then record s {
      port = if mentions image "redis" then 6379 else 11211;
      is_public = false;
      health_check = record s.health_check { enabled = false };
    }
    else if mentions image "nginx" || mentions image "httpd" || mentions image "caddy"
    then record s { port = 80; is_public = true }
    else s

pub new_service : String → String → ServiceInterviewState
new_service name image =
    let service_name = hyphenate (trim name) in
    detect image (record create_default_service_state {
      service_name = service_name;
      alias_name = service_name;
      alias_image = trim image;
    })

unfoldable pub add_slice : String → String → WizardState → WizardState
unfolding new_service
add_slice name image w =
    if trim name == "" || trim image == ""
    then w
    else let services = w.services ++ new_service name image ∷ [] in
      record w {
        services = services;
        active_service_index = length services - 1;
        selected_combo = some custom;
      }

-- What `parseInt` reads in a number field.
pub data Entered : Type 0 where
  not_a_number : Entered
  pos : ℕ → Entered
  negsuc : ℕ → Entered

-- `parseInt(…) || 0`. A negative port fails the same tests as port 0 and is kept as 0.
abbrev pub entered_port : Entered → ℕ
entered_port (pos n) = n
entered_port _ = 0

-- `Math.max(1, Math.min(100, parseInt(…) || 1))`
abbrev pub entered_replicas : Entered → ℕ
entered_replicas not_a_number = 1
entered_replicas (pos n) = max 1 (min 100 n)
entered_replicas (negsuc n) = 1

pub set_port : Entered → WizardState → WizardState
set_port e w = update_service 0 (λ s. record s { port = entered_port e }) w

pub set_replicas : Entered → WizardState → WizardState
set_replicas e w = update_service 0 (λ s. record s { replicas = entered_replicas e }) w

unfoldable pub set_domain : String → WizardState → WizardState
set_domain d w = update_service 0 (λ s. record s { domain = d }) w

unfoldable pub set_schedule : String → WizardState → WizardState
set_schedule cron w = update_service 0 (λ s. record s { schedule = cron }) w

unfoldable pub choose_size : ResourceSize → WizardState → WizardState
choose_size size w = elim (get_elem? w.services 0) [
  | none ↦ w
  | some svc ↦ record w {
    services = set w.services 0 (record svc { resources = resource_size_map size });
    resource_size = size;
  }
]

pub set_health_check : Bool → WizardState → WizardState
set_health_check on w =
    update_service 0 (λ s. record s { health_check = record s.health_check { enabled = on } }) w

unfoldable pub set_target : WizardTarget → WizardState → WizardState
set_target t w = record w { target = t }

-- What the user can do in the second step.
pub data Action : Type 0 where
  select toggle_visibility remove : ℕ → Action
  need : ℕ → ℕ → Action
  add : String → String → Action
  port replicas : Entered → Action
  domain schedule : String → Action
  size : ResourceSize → Action
  health_check : Bool → Action
  target : WizardTarget → Action

-- A click on row `i`, if it is shown.
abbrev pub on_row : ℕ → (WizardState → WizardState) → WizardState → WizardState
on_row i f w = if ltb i (length (shown w)) then f w else w

-- The row of the active slice shows the others once there are two rows. The other slice is that
-- of service `j`, which is not `i` and has an image.
pub on_need : ℕ → ℕ → WizardState → WizardState
on_need i j w = elim (get_elem? w.services j) [
  | none ↦ w
  | some other ↦
      if i == j
        || not (has_image other)
        || not (i == w.active_service_index)
        || not (ltb 1 (length (shown w)))
      then w
      else on_row i (toggle_need i (display_name other)) w
]

unfoldable pub perform : Action → WizardState → WizardState
unfolding on_need select_slice toggle_public remove_slice toggle_need add_slice set_port
    set_replicas set_domain set_schedule choose_size set_health_check set_target
perform (select i) w = on_row i (select_slice i) w
perform (toggle_visibility i) w = on_row i (toggle_public i) w
perform (remove i) w = on_row i (remove_slice i) w
perform (need i j) w = on_need i j w
perform (add name image) w = add_slice name image w
perform (port e) w = set_port e w
perform (replicas e) w = set_replicas e w
perform (domain d) w = set_domain d w
perform (schedule cron) w = set_schedule cron w
perform (size s) w = choose_size s w
perform (health_check on) w = set_health_check on w
perform (target t) w = set_target t w

unfoldable pub perform_all : List Action → WizardState → WizardState
unfolding perform
perform_all [] w = w
perform_all (a ∷ acts) w = perform_all acts (perform a w)
