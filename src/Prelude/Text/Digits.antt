-- ===== src/Prelude/Text/Digits.antt =====
-- The digits of a number, and their characters.
use mozza.Prelude.Tests.{ltb, nat_eq, Bool-cases}
use mozza.Prelude.Lists.{all}
use Prim.Native.Nat.{ℕ, zero, suc, ◌+◌, ◌/◌, ◌%◌, ◌<◌}
use mathlib.Core.Path.{◌≡◌, refl, ◌∙◌}
use mathlib.Core.Logic.{inl, inr}
use mathlib.Core.Bool.{Bool, true}
use mathlib.Core.List.{List, [], ◌∷◌, map}
use native.Mathlib.Omega.{arith}
use mozza.Prelude.Text.{template, digits, digits_from, digit_text, decimal, codes, codes-append}

abbrev pub below_ten : ℕ → Bool
below_ten d = ltb d 10

digits_from-all :
    (f n : ℕ) (rest : List ℕ)
    → n < f
    → all below_ten rest ≡ true
    → all below_ten (digits_from f n rest) ≡ true
unfolding digits_from
digits_from-all zero n rest h k = elim h [ ]
digits_from-all (suc f) n rest h k = elim (Bool-cases (ltb n 10)) [
  | inl small ↦ rw small (ground arith)
  | inr large ↦ rw large (digits_from-all f (n / 10) (n % 10 ∷ rest) (ground arith) (ground arith))
]

pub all-digits : (n : ℕ) → all below_ten (digits n) ≡ true
unfolding digits
all-digits n = digits_from-all (suc n) n [] (omega arith) refl

-- The code point of a digit.
abbrev pub digit_code : ℕ → ℕ
digit_code d = b'0' + d

codes-digit_text : (d : ℕ) → below_ten d ≡ true → codes (digit_text d) ≡ digit_code d ∷ []
codes-digit_text zero h = refl
codes-digit_text (suc zero) h = refl
codes-digit_text (suc (suc zero)) h = refl
codes-digit_text (suc (suc (suc zero))) h = refl
codes-digit_text (suc (suc (suc (suc zero)))) h = refl
codes-digit_text (suc (suc (suc (suc (suc zero))))) h = refl
codes-digit_text (suc (suc (suc (suc (suc (suc zero)))))) h = refl
codes-digit_text (suc (suc (suc (suc (suc (suc (suc zero))))))) h = refl
codes-digit_text (suc (suc (suc (suc (suc (suc (suc (suc zero)))))))) h = refl
codes-digit_text (suc (suc (suc (suc (suc (suc (suc (suc (suc zero))))))))) h = refl
codes-digit_text (suc (suc (suc (suc (suc (suc (suc (suc (suc (suc d)))))))))) h = ground arith

codes-digits :
    (ds : List ℕ)
    → all below_ten ds ≡ true
    → codes (template (map digit_text ds)) ≡ map digit_code ds
unfolding template
codes-digits [] h = refl
codes-digits (d ∷ ds) h =
    codes-append (digit_text d) (template (map digit_text ds))
    ∙ rw (codes-digit_text d (ground arith), codes-digits ds (ground arith)) refl

pub codes-decimal : (n : ℕ) → codes (decimal n) ≡ map digit_code (digits n)
unfolding decimal
codes-decimal n = codes-digits (digits n) (all-digits n)

-- There is a first digit.
digits_from-cons :
    (f n : ℕ) (d : ℕ) (rest : List ℕ)
    → (e : ℕ) × ((ds : List ℕ) × (digits_from f n (d ∷ rest) ≡ e ∷ ds))
unfolding digits_from
digits_from-cons zero n d rest = (d, (rest, refl))
digits_from-cons (suc f) n d rest = elim (Bool-cases (ltb n 10)) [
  | inl small ↦ (n, (d ∷ rest, rw small refl))
  | inr large ↦
      let more = digits_from-cons f (n / 10) (n % 10) (d ∷ rest) in
      (more.0, (more.1.0, rw large more.1.1))
]

pub digits_cons : (n : ℕ) → (e : ℕ) × ((ds : List ℕ) × (digits n ≡ e ∷ ds))
unfolding digits digits_from
digits_cons n = elim (Bool-cases (ltb n 10)) [
  | inl small ↦ (n, ([], rw small refl))
  | inr large ↦
      let more = digits_from-cons n (n / 10) (n % 10) [] in (more.0, (more.1.0, rw large more.1.1))
]
