-- ===== src/Format.antt =====
-- ui/src/lib/format.ts, `formatRelativeTime` of ui/src/pages/EnvironmentsPage.tsx, and
-- `formatElapsed` of ui/src/components/deploy/DeployTerminal.tsx. A time is a count of milliseconds;
-- what `Date` makes of a text is an argument, `none` where it makes nothing of it.
pub mod Times
mod Tests
use mozza.Prelude.{
  ℕ, zero, suc, ◌+◌, ◌-◌, ◌*◌, ◌/◌, ◌%◌, ℤ, pos, negsuc, ◌+ℤ◌, Bool, true, false, ◌||◌, Option,
  none, some, List, [], ◌∷◌, String, template, decimal, lower, codes, contains, includes, ltb, ◌==◌,
  nat_eq, string_eq, if◌then◌else◌,
}
use mozza.Interview.Combo.{or_else}

pub time_ago : String → String
time_ago age = or_else age ""

abbrev negated : ℤ → ℤ
negated (pos zero) = pos 0
negated (pos (suc n)) = negsuc n
negated (negsuc n) = pos (suc n)

-- `Date.now() - new Date(iso).getTime()`
abbrev pub difference : ℤ → Option ℤ → Option ℤ
difference now none = none
difference now (some t) = some (now +ℤ negated t)

abbrev ago : ℕ → String → String
ago n unit = template (decimal n ∷ unit ∷ " ago" ∷ [])

-- The text for a time that lies some whole minutes back.
minutes_ago : ℕ → String
minutes_ago mins =
    let hours = mins / 60 in
    if ltb mins 1
    then "just now"
    else if ltb mins 60
    then ago mins "m"
    else if ltb hours 24
    then ago hours "h"
    else ago (hours / 24) "d"

-- Of a time to come, `Math.floor` makes a negative number of minutes; of none, NaN.
pub since : Option ℤ → String
unfolding minutes_ago
since none = "NaNd ago"
since (some (pos d)) = minutes_ago (d / 60000)
since (some (negsuc d)) = "just now"

pub relative_time : ℤ → (String → Option ℤ) → String → String
unfolding since
relative_time now date iso = if iso == "" then "" else since (difference now (date iso))

pub format_relative_time : ℤ → (String → Option ℤ) → String → String
unfolding since
format_relative_time now date iso = since (difference now (date iso))

-- `s.toString().padStart(2, "0")`
abbrev two_digits : ℕ → String
two_digits n = if ltb n 10 then template ("0" ∷ decimal n ∷ []) else decimal n

pub format_elapsed : ℕ → String
format_elapsed seconds = template (decimal (seconds / 60) ∷ ":" ∷ two_digits (seconds % 60) ∷ [])

pub status_color : String → String
status_color status =
    if includes ("healthy" ∷ "success" ∷ "succeeded" ∷ "Running" ∷ []) status
    then "text-success"
    else if includes ("degraded" ∷ "warning" ∷ "Pending" ∷ []) status
    then "text-warning"
    else if includes ("failing" ∷ "failed" ∷ "CrashLoopBackOff" ∷ "ImagePullBackOff" ∷ []) status
    then "text-error"
    else "text-muted-foreground"

pub status_bg_color : String → String
status_bg_color status =
    if includes ("healthy" ∷ "success" ∷ "succeeded" ∷ []) status
    then "bg-success/10 text-success border-success/20"
    else if includes ("degraded" ∷ "warning" ∷ []) status
    then "bg-warning/10 text-warning border-warning/20"
    else if includes ("failing" ∷ "failed" ∷ []) status
    then "bg-error/10 text-error border-error/20"
    else "bg-muted text-muted-foreground border-border"

pub env_color : String → String
env_color env =
    if contains (lower env) (codes "prod")
    then "text-error"
    else if contains (lower env) (codes "stag")
    then "text-warning"
    else if contains (lower env) (codes "dev")
    then "text-info"
    else "text-muted-foreground"
