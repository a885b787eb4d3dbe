-- ===== src/Monitoring/Chart.antt =====
-- ui/src/components/monitoring/MetricsChart.tsx: the labels below a chart.
pub mod Labels
mod Tests
use mozza.Prelude.{
  ℕ, zero, suc, ◌+◌, ◌*◌, ◌/◌, max, Bool, true, false, Option, none, some, List, [], ◌∷◌, String,
  length, get_elem?, ltb, if◌then◌else◌,
}

-- A point of a chart, with the measure `V` that the chart draws.
pub record DataPoint (V : Type 0) : Type 0 where
  pub time : String
  pub value : V

abbrev pub step_of : ℕ → ℕ → ℕ
step_of len count = max 1 (len / count)

-- The places from `i` on, each `step` after the one before, with the number of rounds that are left.
pub places_from : ℕ → ℕ → ℕ → ℕ → List ℕ
places_from zero i step len = []
places_from (suc rounds) i step len =
    let more = places_from rounds (i + step) step len in if ltb i len then i ∷ more else []

-- The points are rounds enough.
pub label_places : ℕ → ℕ → List ℕ
unfolding places_from
label_places len count = places_from len 0 (step_of len count) len

abbrev pub add_label :
    {V : Type 0} → (String → String) → Option (DataPoint V) → List String → List String
add_label clock none labels = labels
add_label clock (some p) labels = clock p.time ∷ labels

abbrev pub labels_at : {V : Type 0} → (String → String) → List (DataPoint V) → List ℕ → List String
labels_at clock points [] = []
labels_at clock points (i ∷ is) =
    let more = labels_at clock points is in add_label clock (get_elem? points i) more

-- `timeLabels`, for the text `clock` that the platform gives for a time.
pub time_labels : {V : Type 0} → (String → String) → List (DataPoint V) → ℕ → List String
unfolding label_places
time_labels clock points count = labels_at clock points (label_places (length points) count)
