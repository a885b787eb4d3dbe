-- ===== src/Monitoring/Polling.antt =====
-- ui/src/pages/MonitoringPage.tsx: the fetching of what the page shows, at first, on demand, and every
-- thirty seconds while the page is visible.
pub mod Timer
mod Tests
use mozza.Prelude.{
  ℕ, zero, suc, ◌+◌, ◌-◌, Bool, true, false, not, ◌&&◌, ◌||◌, Option, none, some, List, [], ◌∷◌,
  ◌++◌, String, filter, ltb, ◌==◌, nat_eq, if◌then◌else◌,
}

-- The state, for a type `T` of what the four requests of a fetch answer together; whether the page is
-- visible; the intervals that run, by their numbers; the number of the next; and the fetches awaited.
pub record Polling (T : Type 0) : Type 0 where
  pub loading : Bool
  pub refreshing : Bool
  pub error : Option String
  pub shown : Option T
  pub visible : Bool
  pub timer_ref : Option ℕ
  pub intervals : List ℕ
  pub next_interval : ℕ
  pub awaited : ℕ

-- `fetchData`, up to its requests
pub fetch_data : {T : Type 0} → Bool → Polling T → Polling T
fetch_data is_refresh p = record p {
  refreshing = if is_refresh then true else p.refreshing;
  loading = if is_refresh then p.loading else true;
  error = none;
  awaited = suc p.awaited;
}

pub fetched : {T : Type 0} → T → Polling T → Polling T
fetched t p = record p {
  shown = some t;
  loading = false;
  refreshing = false;
  awaited = p.awaited - 1;
}

pub not_fetched : {T : Type 0} → String → Polling T → Polling T
not_fetched message p = record p {
  error = some message;
  loading = false;
  refreshing = false;
  awaited = p.awaited - 1;
}

-- `clearInterval`
abbrev pub clear_interval : Option ℕ → List ℕ → List ℕ
clear_interval none is = is
clear_interval (some i) is = filter (λ j. not (j == i)) is

-- `startTimer`
pub start_timer : {T : Type 0} → Polling T → Polling T
start_timer p = record p {
  timer_ref = some p.next_interval;
  intervals = clear_interval p.timer_ref p.intervals ++ p.next_interval ∷ [];
  next_interval = suc p.next_interval;
}

abbrev pub stop_timer : {T : Type 0} → Polling T → Polling T
stop_timer p = record p { timer_ref = none; intervals = clear_interval p.timer_ref p.intervals }

-- `handleVisibility`, after the page has become visible or hidden
pub handle_visibility : {T : Type 0} → Bool → Polling T → Polling T
unfolding fetch_data start_timer
handle_visibility true p = start_timer (fetch_data true (record p { visible = true }))
handle_visibility false p = stop_timer (record p { visible = false })

-- The page when it opens.
pub first_polling : {T : Type 0} → Bool → Polling T
unfolding fetch_data start_timer
first_polling visible = start_timer (
    fetch_data false (record {
      loading = true;
      refreshing = false;
      error = none;
      shown = none;
      visible = visible;
      timer_ref = none;
      intervals = [];
      next_interval = 0;
      awaited = 0;
    }))

-- What the page shows: the error in place of everything, that it is loading, or the answer.
pub data PollingView (T : Type 0) : Type 0 where
  error_page loading_page : PollingView T
  monitoring : Option T → PollingView T

abbrev pub hides_all : {T : Type 0} → Option String → Option T → Bool
hides_all (some e) none = true
hides_all (some e) (some t) = false
hides_all none t = false

abbrev pub polling_view : {T : Type 0} → Polling T → PollingView T
polling_view p =
    if hides_all p.error p.shown
    then error_page
    else if p.loading
    then loading_page
    else monitoring p.shown

-- The visibility of the page, one of the intervals that run, the buttons of the page and of its error, and
-- the answers.
pub data PollingEvent (T : Type 0) : Type 0 where
  visibility : Bool → PollingEvent T
  tick : ℕ → PollingEvent T
  refresh retry : PollingEvent T
  answer : T → PollingEvent T
  failure : String → PollingEvent T

abbrev pub is_running : ℕ → List ℕ → Bool
is_running i [] = false
is_running i (j ∷ js) = j == i || is_running i js

abbrev pub same : Bool → Bool → Bool
same true b = b
same false b = not b

pub polling_event : {T : Type 0} → PollingEvent T → Polling T → Polling T
unfolding fetch_data fetched not_fetched handle_visibility
polling_event (visibility v) p = if same v p.visible then p else handle_visibility v p
polling_event (tick i) p = if is_running i p.intervals && p.visible then fetch_data true p else p
polling_event refresh p =
    if p.refreshing || p.loading || hides_all p.error p.shown then p else fetch_data true p
polling_event retry p = if hides_all p.error p.shown then fetch_data false p else p
polling_event (answer t) p = if ltb 0 p.awaited then fetched t p else p
polling_event (failure message) p = if ltb 0 p.awaited then not_fetched message p else p

abbrev pub polling_events : {T : Type 0} → List (PollingEvent T) → Polling T → Polling T
polling_events [] p = p
polling_events (e ∷ es) p = polling_events es (polling_event e p)
