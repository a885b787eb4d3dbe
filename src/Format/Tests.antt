-- ===== src/Format/Tests.antt =====
-- Times of a day, and the theorems about their texts at them.
use mozza.Prelude.{
  ℕ, ℤ, pos, negsuc, ◌≡◌, refl, Bool, true, false, Option, none, some, String, List, [], ◌∷◌, map,
  template, decimal, inl, inr, arith,
}
use mozza.Format.{relative_time, format_elapsed, env_color}
use mozza.Format.Times.{hours, relative_time_lem, format_elapsed_lem}

-- Three and a half hours after noon.
abbrev now : ℤ
now = pos 56000000

abbrev noon : String → Option ℤ
noon iso = some (pos 43400000)

texts : map (relative_time now noon) ("2026-01-01T12:00:00Z" ∷ "" ∷ []) ≡ "3h ago" ∷ "" ∷ []
unfolding relative_time template decimal
texts = refl

env_colors :
    map env_color ("PROD-eu" ∷ "staging" ∷ "default" ∷ [])
    ≡ "text-error" ∷ "text-warning" ∷ "text-muted-foreground" ∷ []
unfolding env_color mozza.Prelude.contains mozza.Prelude.lower
env_colors = refl

relative_time_lem_example :
    relative_time now noon "2026-01-01T12:00:00Z" ≡ template (decimal 3 ∷ "h" ∷ " ago" ∷ [])
relative_time_lem_example =
    relative_time_lem hours 3 12600000 now noon "2026-01-01T12:00:00Z" refl refl refl (omega arith)
      (omega arith)

format_elapsed_lem_example :
    format_elapsed 125 ≡ template (decimal 2 ∷ ":" ∷ template ("0" ∷ decimal 5 ∷ []) ∷ [])
format_elapsed_lem_example = format_elapsed_lem 2 5 (omega arith)
