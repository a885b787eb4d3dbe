-- ===== src/Monitoring/Polling/Tests.antt =====
-- Examples of the polling of ui/src/pages/MonitoringPage.tsx.
use mozza.Prelude.{◌≡◌, refl, ℕ, true, false, not, ◌||◌, some, List, [], ◌∷◌, ltb}
use mozza.Monitoring.Polling.{
  first_polling, PollingEvent, visibility, tick, answer, failure, polling_event, polling_events,
  polling_view, error_page, monitoring, fetch_data, fetched, not_fetched, start_timer,
  handle_visibility,
}
use mozza.Monitoring.Polling.Timer.{listed_timer, has_interval, polling_events-IsTimed}

abbrev hidden_and_shown : List (PollingEvent ℕ)
hidden_and_shown =
    answer 1 ∷ visibility false ∷ tick 0 ∷ visibility true ∷ tick 1 ∷ failure "no cluster" ∷ []

second_interval : (polling_events hidden_and_shown (first_polling true)).intervals ≡ 1 ∷ []
unfolding first_polling polling_event fetch_data fetched not_fetched start_timer handle_visibility
second_interval = refl

old_answer_stays :
    polling_view (polling_events hidden_and_shown (first_polling true)) ≡ monitoring (some 1)
unfolding first_polling polling_event fetch_data fetched not_fetched start_timer handle_visibility
old_answer_stays = refl

first_error :
    polling_view (polling_events {T = ℕ} (failure "no cluster" ∷ []) (first_polling true))
    ≡ error_page
unfolding first_polling polling_event fetch_data not_fetched start_timer
first_error = refl

polling_events-IsTimed_example :
    let p = polling_events hidden_and_shown (first_polling true) in
    (p.intervals ≡ listed_timer p.timer_ref)
    × ((not p.visible || has_interval p.timer_ref) ≡ true)
    × ((not (p.loading || p.refreshing) || ltb 0 p.awaited) ≡ true)
polling_events-IsTimed_example = polling_events-IsTimed true hidden_and_shown
