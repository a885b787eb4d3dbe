-- ===== src/Prelude/Int.antt =====
-- Whole numbers, as the source reads, adds and prints them.
use Prim.Native.Nat.{ℕ, zero, suc, ◌+◌, ◌-◌}
use Prim.Native.String.{String}
use mathlib.Core.Bool.{Bool, false}
use mathlib.Core.Option.{Option, none, some}
use mathlib.Core.List.{[], ◌∷◌}
use mozza.Prelude.Tests.{ltb, if◌then◌else◌}
use mozza.Prelude.Text.{template, decimal}

pub data ℤ : Type 0 where
  pos negsuc : ℕ → ℤ

infixl 65 ◌+ℤ◌
abbrev pub ◌+ℤ◌ : ℤ → ℤ → ℤ
pos a +ℤ pos b = pos (a + b)
pos a +ℤ negsuc b = if ltb b a then pos (a - suc b) else negsuc (b - a)
negsuc a +ℤ pos b = if ltb a b then pos (b - suc a) else negsuc (a - b)
negsuc a +ℤ negsuc b = negsuc (suc (a + b))

-- `z > n`
abbrev pub exceeds : ℤ → ℕ → Bool
exceeds (pos a) n = ltb n a
exceeds (negsuc a) n = false

-- `Math.max(0, z)`
abbrev pub at_least_zero : ℤ → ℤ
at_least_zero (pos a) = pos a
at_least_zero (negsuc a) = pos 0

-- `parseInt(…) || d`, where `none` is no number.
abbrev pub parsed_or : ℤ → Option ℤ → ℤ
parsed_or d none = d
parsed_or d (some (pos zero)) = d
parsed_or d (some (pos (suc n))) = pos (suc n)
parsed_or d (some (negsuc n)) = negsuc n

-- `${z}`
unfoldable pub decimal_int : ℤ → String
decimal_int (pos n) = decimal n
decimal_int (negsuc n) = template ("-" ∷ decimal (suc n) ∷ [])
