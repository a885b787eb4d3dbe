-- ===== src/Imports/GitHub.antt =====
-- ui/src/components/deploy/GitHubImport.tsx: a recipe from a repository. The answers of the server arrive
-- later than the requests.
pub mod Edited
mod Tests
use mozza.Prelude.{
  ℕ, zero, suc, ◌+◌, Bool, true, false, not, ◌&&◌, ◌||◌, Option, none, some, List, [], ◌∷◌, ◌++◌,
  String, codes, lower, begins_with, contains, trim, leb, ltb, ◌==◌, nat_eq, if◌then◌else◌,
}
use mozza.Recipe.{given}

pub data ScanState : Type 0 where
  idle scanning results error : ScanState

pub record ScanGenerated : Type 0 where
  pub source : String
  pub method : String
  pub editable : Bool
  pub needs_build : Bool
  pub build_instructions : Option String

pub record ScanSource : Type 0 where
  pub kind : String
  pub path : String
  pub priority : ℕ

pub record ScanResult : Type 0 where
  pub repo_url : String
  pub repo_name : String
  pub description : String
  pub sources : List ScanSource
  pub generated : Option ScanGenerated
  pub warnings : List String

-- The state, and the recipes that `onRecipeReady` was called with.
pub record GitHub : Type 0 where
  pub repo_url : String
  pub scan_state : ScanState
  pub scan_result : Option ScanResult
  pub scan_error : String
  pub editing : Bool
  pub edited_source : String
  pub show_token : Bool
  pub token : String
  pub checking_ghcr : Bool
  pub handed : List String

abbrev pub first_github : GitHub
first_github = record {
  repo_url = "";
  scan_state = idle;
  scan_result = none;
  scan_error = "";
  editing = false;
  edited_source = "";
  show_token = false;
  token = "";
  checking_ghcr = false;
  handed = [];
}

-- `[\w.-]`, of letters in lower case
abbrev is_name_char : ℕ → Bool
is_name_char c =
    leb b'0' c && leb c b'9' || leb b'a' c && leb c b'z' || c == b'_' || c == b'.' || c == b'-'

abbrev drop_codes : ℕ → List ℕ → List ℕ
drop_codes zero s = s
drop_codes (suc n) [] = []
drop_codes (suc n) (c ∷ s) = drop_codes n s

abbrev starts_name : List ℕ → Bool
starts_name [] = false
starts_name (c ∷ s) = is_name_char c

-- `[\w.-]+\/[\w.-]+`, once a first character of the name has been read
abbrev more_owner : List ℕ → Bool
more_owner [] = false
more_owner (c ∷ s) = if c == b'/' then starts_name s else is_name_char c && more_owner s

abbrev owner_and_repo : List ℕ → Bool
owner_and_repo s = starts_name s && more_owner s

abbrev after_scheme : List ℕ → Bool
after_scheme s = begins_with s (codes "://github.com/") && owner_and_repo (drop_codes 14 s)

abbrev after_http : List ℕ → Bool
after_http (c ∷ s) = if c == b's' then after_scheme s else after_scheme (c ∷ s)
after_http [] = false

-- `/^https?:\/\/github\.com\/[\w.-]+\/[\w.-]+/i` on the trimmed text
pub is_valid_url : String → Bool
is_valid_url url =
    let s = lower (trim url) in begins_with s (codes "http") && after_http (drop_codes 4 s)

pub scan_message : String → String
scan_message raw =
    let names : String → Bool = λ s. contains (codes raw) (codes s) in
    if names "not a GitHub URL"
    then "That doesn't look like a GitHub URL. Try something like https://github.com/owner/repo"
    else if names "authentication failed"
    then "Authentication failed — check your token has 'repo' scope."
    else if names "404"
    then "Repository not found — check the URL and make sure it's public (or provide a token)."
    else if names "rate limit"
    then "GitHub API rate limit reached. Try again in a minute, or provide a token."
    else if given raw
    then raw
    else "Failed to scan repository"

abbrev pub source_of : Option ScanGenerated → String
source_of none = ""
source_of (some g) = g.source

-- `generated?.source`, "" where there is none
abbrev pub source_in : Option ScanResult → String
source_in none = ""
source_in (some r) = source_of r.generated

-- `handleScan`, up to its request
pub handle_scan : GitHub → GitHub
unfolding is_valid_url
handle_scan g =
    if is_valid_url g.repo_url
    then record g { scan_state = scanning; scan_error = ""; scan_result = none; editing = false }
    else g

abbrev pub taken_result : ScanResult → GitHub → GitHub
taken_result r g = record g {
  scan_result = some r;
  edited_source = if given (source_in (some r)) then source_in (some r) else g.edited_source;
}

pub scanned : ScanResult → GitHub → GitHub
scanned r g = record (taken_result r g) { scan_state = results }

pub not_scanned : String → GitHub → GitHub
not_scanned raw g = record g { scan_error = scan_message raw; scan_state = error }

-- `Check for Pre-built Image`, and the answer to it
pub check_image : GitHub → GitHub
check_image g = record g { checking_ghcr = true }

pub image_checked : Option ScanResult → GitHub → GitHub
image_checked none g = record g { checking_ghcr = false }
image_checked (some r) g = record (taken_result r g) { checking_ghcr = false }

pub handle_use_recipe : GitHub → GitHub
handle_use_recipe g =
    let source = if g.editing then g.edited_source else source_in g.scan_result in
    if given source then record g { handed = g.handed ++ source ∷ [] } else g

abbrev pub is_results : ScanState → Bool
is_results results = true
is_results idle = false
is_results scanning = false
is_results error = false

abbrev pub is_scanning : ScanState → Bool
is_scanning scanning = true
is_scanning idle = false
is_scanning results = false
is_scanning error = false

abbrev pub is_editable : Option ScanGenerated → Bool
is_editable none = false
is_editable (some g) = g.editable

abbrev pub is_generated : Option ScanGenerated → Bool
is_generated none = false
is_generated (some g) = true

abbrev pub needs_image : Option ScanGenerated → Bool
needs_image none = false
needs_image (some g) =
    g.needs_build && elim g.build_instructions [ none ↦ false | some b ↦ given b ]

-- Whether the results are shown with a recipe of which a test holds.
abbrev pub shows : (Option ScanGenerated → Bool) → GitHub → Bool
shows test g =
    is_results g.scan_state && elim g.scan_result [ none ↦ false | some r ↦ test r.generated ]

-- The actions of the user, each where the page shows its control, and the answers, which may come late.
pub data GitHubEvent : Type 0 where
  type_url type_token type_source : String → GitHubEvent
  toggle_token scan edit check use_recipe : GitHubEvent
  scan_answer : ScanResult → GitHubEvent
  scan_failure : String → GitHubEvent
  check_answer : Option ScanResult → GitHubEvent

pub github_event : GitHubEvent → GitHub → GitHub
unfolding handle_scan scanned not_scanned check_image image_checked handle_use_recipe
github_event (type_url url) g = record g { repo_url = url }
github_event (type_token t) g = if g.show_token then record g { token = t } else g
github_event toggle_token g = record g { show_token = not g.show_token }
github_event (type_source s) g =
    if shows is_generated g && g.editing then record g { edited_source = s } else g
github_event scan g = if is_scanning g.scan_state then g else handle_scan g
github_event edit g =
    if shows is_editable g && not g.editing then record g { editing = true } else g
github_event check g = if shows needs_image g && not g.checking_ghcr then check_image g else g
github_event use_recipe g =
    if shows is_generated g && not (g.editing && not (given (trim g.edited_source)))
    then handle_use_recipe g
    else g
github_event (scan_answer r) g = if is_scanning g.scan_state then scanned r g else g
github_event (scan_failure raw) g = if is_scanning g.scan_state then not_scanned raw g else g
github_event (check_answer r) g = if g.checking_ghcr then image_checked r g else g

abbrev pub github_events : List GitHubEvent → GitHub → GitHub
github_events [] g = g
github_events (e ∷ es) g = github_events es (github_event e g)
