-- ===== src/Monitoring/Chart/Tests.antt =====
-- Examples of the labels of ui/src/components/monitoring/MetricsChart.tsx.
use mozza.Prelude.{◌≡◌, ◌≤◌, min, refl, ℕ, List, [], ◌∷◌, length}
use mozza.Monitoring.Chart.{DataPoint, label_places, places_from, time_labels}
use mozza.Monitoring.Chart.Labels.{time_labels_bound}

-- The last of the labels is drawn at the right edge, where the tenth point stands, but is that of the ninth.
ten_points : label_places 10 4 ≡ 0 ∷ 2 ∷ 4 ∷ 6 ∷ 8 ∷ []
unfolding label_places places_from
ten_points = refl

seven_points : length (label_places 7 4) ≡ 7
unfolding label_places places_from
seven_points = refl

abbrev five_points : List (DataPoint ℕ)
five_points =
    record { time = "10:00"; value = 1 }
    ∷ record { time = "10:01"; value = 2 }
    ∷ record { time = "10:02"; value = 3 }
    ∷ record { time = "10:03"; value = 4 }
    ∷ record { time = "10:04"; value = 5 }
    ∷ []

time_labels_bound_example :
    (min 4 5 ≤ length (time_labels (λ t. t) five_points 4))
    × (length (time_labels (λ t. t) five_points 4) ≤ 7)
time_labels_bound_example = time_labels_bound (λ t. t) five_points
