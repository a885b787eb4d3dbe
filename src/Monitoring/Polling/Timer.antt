-- ===== src/Monitoring/Polling/Timer.antt =====
-- ui/src/pages/MonitoringPage.tsx: the intervals that run, and the fetches that are awaited.
use mozza.Prelude.{
  ℕ, suc, ◌≡◌, refl, ap, ◌∙◌, Bool, true, false, not, ◌&&◌, ◌||◌, Option, none, some, List, [], ◌∷◌,
  ◌++◌, arith, ltb, nat_eq, nat_beq_iff, if◌then◌else◌,
}
use mozza.Monitoring.Polling.{
  Polling, fetch_data, fetched, not_fetched, start_timer, clear_interval, handle_visibility,
  first_polling, PollingEvent, visibility, tick, refresh, retry, answer, failure, polling_event,
  polling_events, is_running, same, hides_all,
}

abbrev pub listed_timer : Option ℕ → List ℕ
listed_timer none = []
listed_timer (some i) = i ∷ []

abbrev pub has_interval : Option ℕ → Bool
has_interval none = false
has_interval (some i) = true

-- The only interval that runs is the one that the page knows of; it has one while it is visible; and while
-- it says that it loads or refreshes, a fetch is awaited.
abbrev pub IsTimed : {T : Type 0} → Polling T → Type 0
IsTimed p =
    (p.intervals ≡ listed_timer p.timer_ref)
    × ((not p.visible || has_interval p.timer_ref) ≡ true)
    × ((not (p.loading || p.refreshing) || ltb 0 p.awaited) ≡ true)

cleared : (o : Option ℕ) → clear_interval o (listed_timer o) ≡ []
cleared none = refl
cleared (some i) = ground (arith, nat_beq_iff i i)

positive : (b : Bool) (n : ℕ) → (b || ltb 0 (suc n)) ≡ true
positive b n = ground arith

fetch_data-IsTimed :
    {T : Type 0} → (b : Bool) (p : Polling T) → IsTimed p → IsTimed (fetch_data b p)
unfolding fetch_data
fetch_data-IsTimed b p (x, y, z) =
    let q = fetch_data b p in (x, y, positive (not (q.loading || q.refreshing)) p.awaited)

started : (v : Bool) → (not v || true) ≡ true
started true = refl
started false = refl

start_timer-IsTimed :
    {T : Type 0}
    → (p : Polling T) → p.intervals ≡ listed_timer p.timer_ref
    → (not (p.loading || p.refreshing) || ltb 0 p.awaited) ≡ true
    → IsTimed (start_timer p)
unfolding start_timer
start_timer-IsTimed p x z = (
  ap (λ is. clear_interval p.timer_ref is ++ p.next_interval ∷ []) x
      ∙ ap (λ is. is ++ p.next_interval ∷ []) (cleared p.timer_ref),
  started p.visible,
  z,
)

handle_visibility-IsTimed :
    {T : Type 0} → (v : Bool) (p : Polling T) → IsTimed p → IsTimed (handle_visibility v p)
unfolding handle_visibility fetch_data
handle_visibility-IsTimed true p (x, y, z) =
    let q : Polling _ = fetch_data true (record p { visible = true }) in
    start_timer-IsTimed q x (positive (not (q.loading || q.refreshing)) p.awaited)
handle_visibility-IsTimed false p (x, y, z) =
    (ap (clear_interval p.timer_ref) x ∙ cleared p.timer_ref, refl, z)

if-IsTimed :
    {T : Type 0}
    → (b : Bool) (p q : Polling T) → IsTimed p
    → IsTimed q
    → IsTimed (if b then q else p)
if-IsTimed false p q h k = h
if-IsTimed true p q h k = k

unless-IsTimed :
    {T : Type 0}
    → (b : Bool) (p q : Polling T) → IsTimed p
    → IsTimed q
    → IsTimed (if b then p else q)
unless-IsTimed false p q h k = k
unless-IsTimed true p q h k = h

event-IsTimed :
    {T : Type 0} → (e : PollingEvent T) (p : Polling T) → IsTimed p → IsTimed (polling_event e p)
unfolding polling_event fetched not_fetched
event-IsTimed (visibility v) p h =
    unless-IsTimed (same v p.visible) p (handle_visibility v p) h (handle_visibility-IsTimed v p h)
event-IsTimed (tick i) p h =
    if-IsTimed (is_running i p.intervals && p.visible) p (fetch_data true p) h
      (fetch_data-IsTimed true p h)
event-IsTimed refresh p h =
    unless-IsTimed (p.refreshing || p.loading || hides_all p.error p.shown) p (fetch_data true p) h
      (fetch_data-IsTimed true p h)
event-IsTimed retry p h =
    if-IsTimed (hides_all p.error p.shown) p (fetch_data false p) h (fetch_data-IsTimed false p h)
event-IsTimed (answer t) p h = if-IsTimed (ltb 0 p.awaited) p (fetched t p) h (h.0, h.1, refl)
event-IsTimed (failure message) p h =
    if-IsTimed (ltb 0 p.awaited) p (not_fetched message p) h (h.0, h.1, refl)

events-IsTimed :
    {T : Type 0}
    → (es : List (PollingEvent T)) (p : Polling T) → IsTimed p
    → IsTimed (polling_events es p)
events-IsTimed [] p h = h
events-IsTimed (e ∷ es) p h = events-IsTimed es (polling_event e p) (event-IsTimed e p h)

-- However often the page is hidden and shown, at most one interval runs, the one that the page will clear;
-- one runs whenever the page is visible; and while the page says that it loads or refreshes, a fetch is
-- awaited.
pub polling_events-IsTimed :
    {T : Type 0}
    → (visible : Bool) (es : List (PollingEvent T))
    → let p = polling_events es (first_polling visible) in
      (p.intervals ≡ listed_timer p.timer_ref)
      × ((not p.visible || has_interval p.timer_ref) ≡ true)
      × ((not (p.loading || p.refreshing) || ltb 0 p.awaited) ≡ true)
unfolding first_polling
polling_events-IsTimed visible es =
    events-IsTimed es (first_polling visible) (refl, started visible, refl)
