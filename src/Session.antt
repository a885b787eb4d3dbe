-- ===== src/Session.antt =====
-- The calls of the server, the user who is signed in, and whether the cluster can be reached:
-- `request` of ui/src/api/client.ts, AuthProvider of ui/src/context/AuthContext.tsx, and
-- ClusterStatusProvider of ui/src/context/ClusterContext.tsx. What `fetch` answers is an argument.
pub mod Errors
mod Tests
use mozza.Prelude.{
  ℕ, Bool, true, false, ◌&&◌, Option, none, some, List, [], ◌∷◌, String, leb, if◌then◌else◌,
}
use mozza.Interview.Combo.{or_else}

-- An answer with its status; its text as JSON, which is an object, `none` where it is none; and, where that has a text
-- `error`, the text, and "" where not.
pub record Response (T : Type 0) : Type 0 where
  pub status : ℕ
  pub status_text : String
  pub json : Option T
  pub error : String

-- `fetch` is refused where the server does not answer.
pub data Fetched (T : Type 0) : Type 0 where
  refused : String → Fetched T
  answered : Response T → Fetched T

pub data RequestFailure : Type 0 where
  network : String → RequestFailure
  api : ℕ → String → RequestFailure
  no_json : RequestFailure

pub data Outcome (T : Type 0) : Type 0 where
  returned : T → Outcome T
  thrown : RequestFailure → Outcome T

-- `res.ok`
abbrev pub is_ok : ℕ → Bool
is_ok status = leb 200 status && leb status 299

-- `await res.json()`
abbrev parsed : {T : Type 0} → Option T → Outcome T
parsed none = thrown no_json
parsed (some v) = returned v

-- The text of the error is in the JSON, and where there is none it is that of the status.
abbrev api_error : {T : Type 0} → Response T → RequestFailure
api_error r = api r.status (or_else r.error r.status_text)

pub request : {T : Type 0} → Fetched T → Outcome T
request (refused message) = thrown (network message)
request (answered r) = if is_ok r.status then parsed r.json else thrown (api_error r)

pub record User : Type 0 where
  pub id : String
  pub email : String
  pub name : String
  pub role : String

pub record Auth : Type 0 where
  pub user : Option User
  pub loading : Bool

abbrev pub first_auth : Auth
first_auth = record { user = none; loading = true }

-- The call that the provider makes when it is shown, and those that it offers.
pub data Call : Type 0 where
  restore login register logout refresh_user : Call

-- The user after an answer; logging out reads none.
abbrev user_after : Call → User → Option User
user_after logout u = none
user_after _ u = some u

-- What a call does with its answer, and what it throws.
pub handle_answer : Call → Fetched User → Auth → Auth × Option RequestFailure
unfolding request
handle_answer restore answer a = elim (request answer) [
  | returned u ↦ (record { user = some u; loading = false }, none)
  | thrown f ↦ (record { user = none; loading = false }, none)
]
handle_answer call answer a = elim (request answer) [
  | returned u ↦ (record a { user = user_after call u }, none)
  | thrown f ↦ (a, some f)
]

-- The answers, in the order in which they come.
abbrev pub handle_answers : List (Call × Fetched User) → Auth → Auth
handle_answers [] a = a
handle_answers ((call, answer) ∷ rest) a = handle_answers rest (handle_answer call answer a).0

pub record ClusterStatus : Type 0 where
  pub reachable : Bool
  pub last_seen : String
  pub error : String
  pub stale : Bool

pub record ClusterState : Type 0 where
  pub status : ClusterStatus
  pub loading : Bool

abbrev no_cluster : String → ClusterStatus
no_cluster message = record { reachable = false; last_seen = ""; error = message; stale = false }

abbrev pub first_cluster : ClusterState
first_cluster = record { status = no_cluster ""; loading = true }

-- What the server says of the cluster; a part that is missing is `none`.
pub record StatusData : Type 0 where
  pub reachable : Option Bool
  pub last_seen : Option String
  pub error : Option String
  pub stale : Option Bool

-- `x ?? d`
abbrev or : {A : Type 0} → A → Option A → A
or d none = d
or d (some x) = x

abbrev status_of_json : Option StatusData → ClusterStatus
status_of_json none = no_cluster "Cannot reach server"
status_of_json (some data_) = record {
  reachable = or false data_.reachable;
  last_seen = or "" data_.last_seen;
  error = or "" data_.error;
  stale = or false data_.stale;
}

pub status_of_answer : Fetched StatusData → ClusterStatus
status_of_answer (refused message) = no_cluster "Cannot reach server"
status_of_answer (answered r) =
    if is_ok r.status then status_of_json r.json else no_cluster "Status endpoint unavailable"

pub fetch_status : Fetched StatusData → ClusterState → ClusterState
unfolding status_of_answer
fetch_status answer c = record { status = status_of_answer answer; loading = false }
