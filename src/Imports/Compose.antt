-- ===== src/Imports/Compose.antt =====
-- ui/src/components/deploy/ComposeImport.tsx: a recipe from a compose file.
pub mod Warnings
pub mod Handed
mod Tests
use mozza.Prelude.{
  ℕ, zero, suc, ◌+◌, ◌*◌, Bool, true, false, not, ◌&&◌, ◌||◌, Option, none, some, List, [], ◌∷◌,
  ◌++◌, map, String, codes, codes_beq, lower, contains, trim, ltb, ◌==◌, string_eq, nat_eq,
  if◌then◌else◌, includes, filter,
}
use mozza.Recipe.{given}

pub data Phase : Type 0 where
  input parsing breakdown preview : Phase

pub data Severity : Type 0 where
  info warn error : Severity

pub record ComposeWarning : Type 0 where
  pub feature : String
  pub message : String
  pub severity : Severity

pub record ComposeServiceInfo : Type 0 where
  pub name : String
  pub image : String
  pub engine : Option String
  pub version : Option String
  pub port : Option ℕ
  pub public : Option Bool
  pub env : Option (List (String × String))

pub record ComposeParseResult : Type 0 where
  pub services : List ComposeServiceInfo
  pub recipe : String
  pub warnings : List ComposeWarning

-- The state; the content that the server has been asked to parse, while its answer is awaited; and the
-- recipes that `onRecipeReady` was called with.
pub record Compose : Type 0 where
  pub phase : Phase
  pub content : String
  pub services : List ComposeServiceInfo
  pub warnings : List ComposeWarning
  pub recipe : String
  pub error_text : String
  pub expanded_service : Option String
  pub dismissed_warnings : List ℕ
  pub awaited : Option String
  pub handed : List String

abbrev pub first_compose : Compose
first_compose = record {
  phase = input;
  content = "";
  services = [];
  warnings = [];
  recipe = "";
  error_text = "";
  expanded_service = none;
  dismissed_warnings = [];
  awaited = none;
  handed = [];
}

-- `/\.(ya?ml)$/i`
pub ends_in : List ℕ → List ℕ → Bool
ends_in [] t = codes_beq [] t
ends_in (c ∷ s) t = codes_beq (c ∷ s) t || ends_in s t

abbrev pub is_yaml : String → Bool
is_yaml name = ends_in (lower name) (codes ".yml") || ends_in (lower name) (codes ".yaml")

-- `handleFileUpload`, up to the reading of the file: whether it is read, and the state.
pub handle_file_upload : ℕ → String → Compose → Bool × Compose
unfolding ends_in
handle_file_upload size name c =
    if ltb (1024 * 1024) size
    then (false, record c { error_text = "File too large — max 1MB" })
    else if not (is_yaml name)
    then (false, record c { error_text = "Please upload a .yml or .yaml file" })
    else (true, record c { error_text = "" })

pub file_read : String → Compose → Compose
file_read text c = record c { content = text }

pub type_content : String → Compose → Compose
type_content text c = record c { content = text; error_text = "" }

-- `handleParse`, up to its request
pub handle_parse : Compose → Compose
handle_parse c =
    if given (trim c.content)
    then record c { phase = parsing; error_text = ""; awaited = some c.content }
    else c

pub friendly : String → String
friendly msg =
    if contains (codes msg) (codes "no services found")
    then "No services found — make sure your file has a 'services:' section."
    else if contains (codes msg) (codes "parsing compose YAML")
    then "Invalid YAML syntax — check for indentation or formatting errors."
    else msg

pub parse_answered : ComposeParseResult → Compose → Compose
parse_answered r c = record c {
  services = r.services;
  warnings = r.warnings;
  recipe = r.recipe;
  phase = breakdown;
  awaited = none;
}

pub not_parsed : String → Compose → Compose
not_parsed msg c = record c { error_text = friendly msg; phase = input; awaited = none }

pub handle_dismiss_warning : ℕ → Compose → Compose
handle_dismiss_warning i c = record c {
  dismissed_warnings =
      if includes c.dismissed_warnings i
      then c.dismissed_warnings
      else c.dismissed_warnings ++ i ∷ [];
}

pub handle_use_recipe : Compose → Compose
handle_use_recipe c = record c { handed = c.handed ++ c.recipe ∷ [] }

abbrev same_name : Option String → String → Bool
same_name none name = false
same_name (some x) name = x == name

pub toggle_service : String → Compose → Compose
toggle_service name c = record c {
  expanded_service = if same_name c.expanded_service name then none else some name;
}

-- `visibleWarnings`, each with its place among all of them.
abbrev pub numbered : ℕ → List ComposeWarning → List (ℕ × ComposeWarning)
numbered i [] = []
numbered i (w ∷ ws) = (i, w) ∷ numbered (suc i) ws

abbrev pub visible_of : List ℕ → List ComposeWarning → List (ℕ × ComposeWarning)
visible_of dismissed ws = filter (λ v. not (includes dismissed v.0)) (numbered 0 ws)

abbrev pub visible_warnings : Compose → List (ℕ × ComposeWarning)
visible_warnings c = visible_of c.dismissed_warnings c.warnings

-- The actions of the user, each where the page shows its control, and the answers.
pub data ComposeEvent : Type 0 where
  typed read : String → ComposeEvent
  upload : ℕ → String → ComposeEvent
  parse use_recipe to_input to_preview to_breakdown : ComposeEvent
  answer : ComposeParseResult → ComposeEvent
  failure : String → ComposeEvent
  dismiss : ℕ → ComposeEvent
  toggle : String → ComposeEvent

abbrev pub in_text : Phase → Bool
in_text input = true
in_text parsing = true
in_text breakdown = false
in_text preview = false

abbrev pub is_input : Phase → Bool
is_input input = true
is_input parsing = false
is_input breakdown = false
is_input preview = false

abbrev pub is_breakdown : Phase → Bool
is_breakdown breakdown = true
is_breakdown input = false
is_breakdown parsing = false
is_breakdown preview = false

abbrev pub is_preview : Phase → Bool
is_preview preview = true
is_preview input = false
is_preview parsing = false
is_preview breakdown = false

abbrev pub is_awaiting : Option String → Bool
is_awaiting none = false
is_awaiting (some s) = true

abbrev pub where_shown : Bool → (Compose → Compose) → Compose → Compose
where_shown shown f c = if shown then f c else c

pub compose_event : ComposeEvent → Compose → Compose
unfolding handle_file_upload file_read type_content handle_parse parse_answered not_parsed
    handle_dismiss_warning handle_use_recipe toggle_service
compose_event (typed text) c = where_shown (in_text c.phase) (type_content text) c
compose_event (read text) c = file_read text c
compose_event (upload size name) c =
    where_shown (in_text c.phase) (λ c. (handle_file_upload size name c).1) c
compose_event parse c = where_shown (is_input c.phase) handle_parse c
compose_event use_recipe c = where_shown (is_preview c.phase) handle_use_recipe c
compose_event to_input c =
    where_shown (is_breakdown c.phase) (λ c. record c { phase = input; error_text = "" }) c
compose_event to_preview c =
    where_shown (is_breakdown c.phase) (λ c. record c { phase = preview }) c
compose_event to_breakdown c =
    where_shown (is_preview c.phase) (λ c. record c { phase = breakdown }) c
compose_event (answer r) c = where_shown (is_awaiting c.awaited) (parse_answered r) c
compose_event (failure msg) c = where_shown (is_awaiting c.awaited) (not_parsed msg) c
compose_event (dismiss i) c = where_shown (is_breakdown c.phase) (handle_dismiss_warning i) c
compose_event (toggle name) c = where_shown (is_breakdown c.phase) (toggle_service name) c

abbrev pub compose_events : List ComposeEvent → Compose → Compose
compose_events [] c = c
compose_events (e ∷ es) c = compose_events es (compose_event e c)
