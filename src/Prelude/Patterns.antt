-- ===== src/Prelude/Patterns.antt =====
-- The regular expressions of the source: a text, a word between word boundaries, and two texts
-- on one line. All but the last two ports of networking-recommendations.ts have the flag `i`, and
-- those two hold no letter, so that all are matched in lower case.
use Prim.Native.Nat.{ℕ}
use Prim.Native.String.{String}
use mathlib.Core.Path.{◌≡◌, refl}
use mathlib.Core.Bool.{Bool, true, false, not, ◌&&◌, ◌||◌}
use mathlib.Core.List.{List, [], ◌∷◌, ◌++◌}
use native.Mathlib.Omega.{arith}
use mozza.Prelude.Tests.{leb, ◌==◌, nat_eq}
use mozza.Prelude.Text.{lower, begins_with, contains}

pub data Pattern : Type 0 where
  phrase : String → Pattern
  word : String → Pattern
  on_line : String → String → Pattern

-- `\w`, in lower case.
abbrev is_word : ℕ → Bool
is_word c = leb b'0' c && leb c b'9' || leb b'a' c && leb c b'z' || c == b'_'

-- Whether the text goes on with `p` and then ends or leaves the word.
abbrev ends_word : List ℕ → List ℕ → Bool
ends_word [] [] = true
ends_word (c ∷ s) [] = not (is_word c)
ends_word [] (d ∷ p) = false
ends_word (c ∷ s) (d ∷ p) = c == d && ends_word s p

-- Whether `p` occurs as a word; the first argument tells whether a word is going on.
unfoldable pub has_word : Bool → List ℕ → List ℕ → Bool
has_word inside [] p = false
has_word inside (c ∷ s) p = not inside && ends_word (c ∷ s) p || has_word (is_word c) s p

-- `.` stops at the end of a line.
abbrev ends_line : ℕ → Bool
ends_line c = c == 10 || c == 13 || c == 8232 || c == 8233

-- Whether `q` occurs on what is left of the line.
follows : List ℕ → List ℕ → Bool
follows [] q = false
follows (c ∷ s) q = begins_with (c ∷ s) q || not (ends_line c) && follows s q

-- Whether the text goes on with `p` and has `q` later on the line.
abbrev then_follows : List ℕ → List ℕ → List ℕ → Bool
unfolding follows
then_follows s [] q = follows s q
then_follows [] (d ∷ p) q = false
then_follows (c ∷ s) (d ∷ p) q = c == d && then_follows s p q

unfoldable pub has_on_line : List ℕ → List ℕ → List ℕ → Bool
unfolding then_follows
has_on_line [] p q = false
has_on_line (c ∷ s) p q = then_follows (c ∷ s) p q || has_on_line s p q

-- `pattern.test(s)`, of a text in lower case.
unfoldable pub matches : Pattern → List ℕ → Bool
matches (phrase p) s = contains s (lower p)
matches (word p) s = has_word false s (lower p)
matches (on_line p q) s = has_on_line s (lower p) (lower q)

begins_with-append : (s t p : List ℕ) → begins_with s p ≡ true → begins_with (s ++ t) p ≡ true
unfolding begins_with
begins_with-append s t [] h = refl
begins_with-append [] t (d ∷ p) h = ground arith
begins_with-append (c ∷ s) t (d ∷ p) h = ground (arith, begins_with-append s t p)

-- What a text contains, a longer text contains as well.
pub contains-append : (s t p : List ℕ) → contains s p ≡ true → contains (s ++ t) p ≡ true
unfolding contains
contains-append [] [] p h = h
contains-append [] (c ∷ t) p h = ground (arith, begins_with-append [] (c ∷ t) p h)
contains-append (c ∷ s) t p h =
    ground (arith, begins_with-append (c ∷ s) t p, contains-append s t p)

pub contains-prepend : (s t p : List ℕ) → contains t p ≡ true → contains (s ++ t) p ≡ true
unfolding contains
contains-prepend [] t p h = h
contains-prepend (c ∷ s) t p h = ground (arith, contains-prepend s t p)

follows-append : (s t q : List ℕ) → follows s q ≡ true → follows (s ++ t) q ≡ true
unfolding follows
follows-append [] t q h = ground arith
follows-append (c ∷ s) t q h = ground (arith, begins_with-append (c ∷ s) t q, follows-append s t q)

then_follows-append :
    (s t p q : List ℕ) → then_follows s p q ≡ true → then_follows (s ++ t) p q ≡ true
unfolding follows then_follows
then_follows-append [] t [] q h = follows-append [] t q h
then_follows-append (c ∷ s) t [] q h = follows-append (c ∷ s) t q h
then_follows-append [] t (d ∷ p) q h = ground arith
then_follows-append (c ∷ s) t (d ∷ p) q h = ground (arith, then_follows-append s t p q)

has_on_line-append : (s t p q : List ℕ) → has_on_line s p q ≡ true → has_on_line (s ++ t) p q ≡ true
unfolding has_on_line
has_on_line-append [] t p q h = ground arith
has_on_line-append (c ∷ s) t p q h =
    ground (arith, then_follows-append (c ∷ s) t p q, has_on_line-append s t p q)

-- Whether the pattern matches wherever the text goes on.
abbrev pub is_open : Pattern → Bool
is_open (word p) = false
is_open _ = true

-- More text does not undo a match, unless the pattern ends at a word boundary.
pub matches-append :
    (p : Pattern) (s t : List ℕ) → is_open p ≡ true → matches p s ≡ true → matches p (s ++ t) ≡ true
unfolding matches
matches-append (phrase p) s t o h = contains-append s t (lower p) h
matches-append (word p) s t o h = ground arith
matches-append (on_line p q) s t o h = has_on_line-append s t (lower p) (lower q) h
