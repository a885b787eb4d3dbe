-- ===== src/Format/Times.antt =====
-- What a relative time says of the time that it is about.
use Prim.Native.Nat.{◌≤◌, ◌<◌}
use mozza.Prelude.{
  ℕ, suc, ◌+◌, ◌*◌, ◌/◌, ◌%◌, ℤ, pos, negsuc, ◌≡◌, refl, Bool, true, false, Option, some, String,
  [], ◌∷◌, template, decimal, arith, ◌==◌, string_eq, if◌then◌else◌, ltb, ◌⊎◌, inl, inr, ◌&&◌,
}
use mozza.Format.{
  difference, since, minutes_ago, relative_time, format_relative_time, format_elapsed,
}

-- The units of a relative time, with their letters and their lengths in minutes.
pub data TimeUnit : Type 0 where
  minutes hours days : TimeUnit

abbrev pub letter : TimeUnit → String
letter minutes = "m"
letter hours = "h"
letter days = "d"

abbrev pub minutes_of : TimeUnit → ℕ
minutes_of minutes = 1
minutes_of hours = 60
minutes_of days = 1440

-- A number of them that is shown: at least one, and less than the next unit.
abbrev pub is_shown : TimeUnit → ℕ → Bool
is_shown minutes n = ltb 0 n && ltb n 60
is_shown hours n = ltb 0 n && ltb n 24
is_shown days n = ltb 0 n

-- The same of a number of minutes.
minutes_ago_lem :
    (u : TimeUnit) (n m : ℕ)
    → is_shown u n ≡ true
    → n * minutes_of u ≤ m
    → m < suc n * minutes_of u
    → minutes_ago m ≡ template (decimal n ∷ letter u ∷ " ago" ∷ [])
unfolding minutes_ago
minutes_ago_lem minutes n m shown from to = let is_n : m ≡ n = omega arith in rw is_n (ground arith)
minutes_ago_lem hours n m shown from to =
    let is_n : m / 60 ≡ n = omega arith in rw is_n (ground arith)
minutes_ago_lem days n m shown from to =
    let is_n : m / 60 / 24 ≡ n = omega arith in rw is_n (ground arith)

minutes_from :
    (u : TimeUnit) (n d : ℕ) → n * (minutes_of u * 60000) ≤ d → n * minutes_of u ≤ d / 60000
minutes_from minutes n d from = omega arith
minutes_from hours n d from = omega arith
minutes_from days n d from = omega arith

minutes_to :
    (u : TimeUnit) (n d : ℕ) → d < suc n * (minutes_of u * 60000) → d / 60000 < suc n * minutes_of u
minutes_to minutes n d to = omega arith
minutes_to hours n d to = omega arith
minutes_to days n d to = omega arith

-- For a text that is a date, a time that lies at least n and less than n + 1 minutes, hours or
-- days back is shown as n of them, where n is at least one and less than what makes the next unit.
pub relative_time_lem :
    (u : TimeUnit) (n d : ℕ) (now : ℤ) (date : String → Option ℤ) (iso : String)
    → (iso == "") ≡ false
    → difference now (date iso) ≡ some (pos d)
    → is_shown u n ≡ true
    → n * (minutes_of u * 60000) ≤ d
    → d < suc n * (minutes_of u * 60000)
    → relative_time now date iso ≡ template (decimal n ∷ letter u ∷ " ago" ∷ [])
unfolding relative_time since
relative_time_lem u n d now date iso given passed shown from to =
    rw (given, passed)
      (minutes_ago_lem u n (d / 60000) shown (minutes_from u n d from) (minutes_to u n d to))

-- A time that lies less than a minute back, or that is still to come, is shown as now, by both of
-- the functions that show a time.
pub relative_time_now :
    (now : ℤ) (date : String → Option ℤ) (iso : String) (d : ℕ)
    → (iso == "") ≡ false
    → (difference now (date iso) ≡ some (negsuc d))
      ⊎ (d < 60000) × (difference now (date iso) ≡ some (pos d))
    → (relative_time now date iso ≡ "just now") × (format_relative_time now date iso ≡ "just now")
unfolding relative_time format_relative_time since minutes_ago
relative_time_now now date iso d given (inl later) = (rw (given, later) refl, rw later refl)
relative_time_now now date iso d given (inr (soon, passed)) =
    let none_yet : d / 60000 ≡ 0 = omega arith in
    (rw (given, passed, none_yet) refl, rw (passed, none_yet) refl)

-- An elapsed time of m minutes and s seconds, with s below 60, is shown as both, the seconds with two
-- digits.
pub format_elapsed_lem :
    (m s : ℕ)
    → s < 60
    → format_elapsed (m * 60 + s)
      ≡ template
          (decimal m ∷ ":" ∷ (if ltb s 10 then template ("0" ∷ decimal s ∷ []) else decimal s) ∷ [])
unfolding format_elapsed
format_elapsed_lem m s h =
    let minutes_are : (m * 60 + s) / 60 ≡ m = omega arith in
    let seconds_are : (m * 60 + s) % 60 ≡ s = omega arith in rw (minutes_are, seconds_are) refl
