-- ===== src/Prelude/Included.antt =====
-- Lists of texts of which each is one of the known ones.
use mathlib.Core.Path.{◌≡◌, refl}
use mathlib.Core.Bool.{Bool, true, ◌&&◌}
use mathlib.Core.List.{List, [], ◌∷◌, ◌++◌}
use Prim.Native.String.{String}
use native.Mathlib.Omega.{arith}
use text.Mathlib.TextPositions.{eq_refl}
use mozza.Prelude.Tests.{string_eq}
use mozza.Prelude.Lists.{includes}

abbrev pub all_in : List String → List String → Bool
all_in known [] = true
all_in known (s ∷ ss) = includes known s && all_in known ss

pub all_in-append :
    (known ss ts : List String) → all_in known (ss ++ ts) ≡ (all_in known ss && all_in known ts)
all_in-append known [] ts = refl
all_in-append known (s ∷ ss) ts = ground (arith, all_in-append known ss ts)

pub all_in-snoc :
    (known ss : List String) (t : String)
    → all_in known ss ≡ true
    → includes known t ≡ true
    → all_in known (ss ++ t ∷ []) ≡ true
all_in-snoc known ss t h k = ground (arith, all_in-append known ss (t ∷ []))

pub all_in-cons :
    (known ss : List String) (k : String) → all_in known ss ≡ true → all_in (k ∷ known) ss ≡ true
all_in-cons known [] k h = refl
all_in-cons known (s ∷ ss) k h = ground (arith, all_in-cons known ss k)

pub all_in_self : (ss : List String) → all_in ss ss ≡ true
all_in_self [] = refl
all_in_self (s ∷ ss) = ground (arith, all_in-cons ss ss s (all_in_self ss), eq_refl s)
