-- ===== src/Monitoring/Chart/Labels.antt =====
-- The number of the labels below a chart of ui/src/components/monitoring/MetricsChart.tsx.
use mozza.Prelude.{
  min, ℕ, zero, suc, ◌+◌, ◌*◌, ◌/◌, ◌≤◌, ◌<◌, max, ◌≡◌, refl, ap, ◌∙◌, true, false, none, List, [],
  ◌∷◌, String, arith, length, get_elem?, ltb, all, Bool-cases, Option-cases, inl, inr,
}
use mozza.Monitoring.Chart.{
  DataPoint, step_of, places_from, label_places, labels_at, time_labels, add_label,
}

suc_times : (n s : ℕ) → suc n * s ≡ s + n * s
suc_times n s = omega arith

length-places_from :
    (rounds i step len : ℕ)
    → 1 ≤ step
    → i < len + step
    → len ≤ i + rounds
    → let n = length (places_from rounds i step len) in
      (len ≤ i + n * step) × (i + n * step < len + step)
unfolding places_from
length-places_from zero i step len a b c = (omega arith, omega arith)
length-places_from (suc rounds) i step len a b c = elim (Bool-cases (ltb i len)) [
  | inl y ↦
      let (l, u) = length-places_from rounds (i + step) step len a (ground arith) (omega arith) in
      let m : ℕ = length (places_from rounds (i + step) step len) in
      rw (y, suc_times m step) (omega (arith, l), omega (arith, u))
  | inr n ↦ rw n (ground arith, omega arith)
]

places_from_bound :
    (rounds i step len : ℕ) → all (λ j. ltb j len) (places_from rounds i step len) ≡ true
unfolding places_from
places_from_bound zero i step len = refl
places_from_bound (suc rounds) i step len =
    ground (arith, places_from_bound rounds (i + step) step len)

missing_point :
    {V : Type 0}
    → (points : List (DataPoint V)) (i : ℕ) → get_elem? points i ≡ none
    → ltb i (length points) ≡ false
missing_point [] i h = ground arith
missing_point (p ∷ points) zero h = ground arith
missing_point (p ∷ points) (suc i) h = ground (arith, missing_point points i h)

-- Every place has a point, so that no label is left out.
length-labels_at :
    {V : Type 0}
    → (clock : String → String) (points : List (DataPoint V)) (is : List ℕ)
    → all (λ j. ltb j (length points)) is ≡ true
    → length (labels_at clock points is) ≡ length is
length-labels_at clock points [] h = refl
length-labels_at clock points (i ∷ is) h = elim (Option-cases (get_elem? points i)) [
  | inl e ↦ ground (arith, missing_point points i e)
  | inr (p, e) ↦
      ap (λ o. length (add_label clock o (labels_at clock points is))) e
      ∙ ap suc (length-labels_at clock points is (ground arith))
]

-- The labels are as many as the points, a step apart, from the first on: their number `n` is the least for
-- which `n` steps reach the number of the points.
pub length-time_labels :
    {V : Type 0}
    → (clock : String → String) (points : List (DataPoint V)) (count : ℕ)
    → let n = length (time_labels clock points count) in
      let step = step_of (length points) count in
      (length points ≤ n * step) × (n * step < length points + step)
unfolding time_labels label_places
length-time_labels clock points count =
    let len = length points in
    let step : ℕ = step_of len count in
    let (l, u) = length-places_from len 0 step len (omega arith) (omega arith) (omega arith) in
    let e =
      length-labels_at clock points (places_from len 0 step len)
        (places_from_bound len 0 step len) in
    rw e (omega (arith, l), omega (arith, u))

times_mono : (m n s : ℕ) → m ≤ n → m * s ≤ n * s
times_mono zero n s h = omega arith
times_mono (suc m) zero s h = omega arith
times_mono (suc m) (suc n) s h =
    omega (arith, times_mono m n s (omega arith), suc_times m s, suc_times n s)

few : (n len : ℕ) → n * max 1 (len / 4) < len + max 1 (len / 4) → n ≤ 7
few n len h = elim (Bool-cases (ltb n 8)) [
  | inl y ↦ ground arith
  | inr m ↦ omega (arith, times_mono 8 n (max 1 (len / 4)) (ground arith))
]

four_of : (len : ℕ) → ltb len 4 ≡ false → 4 ≤ len
four_of len h = ground arith

one_step : (n s : ℕ) → s ≡ 1 → n * s ≡ n
one_step n s e = ap (λ t. n * t) e ∙ (omega arith)

many : (n len : ℕ) → len ≤ n * max 1 (len / 4) → min 4 len ≤ n
many n len h = elim (Bool-cases (ltb len 4)) [
  | inl y ↦ omega (arith, one_step n (max 1 (len / 4)) (ground arith))
  | inr m ↦ elim (Bool-cases (ltb n 4)) [
    | inl y ↦ omega (arith, times_mono n 3 (max 1 (len / 4)) (ground arith), four_of len m)
    | inr k ↦ ground arith
  ]
]

-- A chart, which asks for four labels, gets at most seven, however many points it has; and at least four, or
-- as many as it has points, where those are fewer.
pub time_labels_bound :
    {V : Type 0}
    → (clock : String → String) (points : List (DataPoint V))
    → (min 4 (length points) ≤ length (time_labels clock points 4))
      × (length (time_labels clock points 4) ≤ 7)
time_labels_bound clock points =
    let (l, u) = length-time_labels clock points 4 in
    let n : ℕ = length (time_labels clock points 4) in
    (many n (length points) l, few n (length points) u)
