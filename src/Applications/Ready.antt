-- ===== src/Applications/Ready.antt =====
-- Reading what Kubernetes writes for the ready pods: "1/2".
use mathlib.Core.List.{append-nil}
use mozza.Prelude.{
  below_ten, digit_code, all-digits, codes-decimal, digits_cons, ℕ, ◌+◌, ◌*◌, ◌≡◌, refl, sym, ap,
  ◌∙◌, true, some, List, [], ◌∷◌, ◌++◌, map, String, template, decimal, digits, digits_value,
  value_from, codes, codes-append, all, arith, nat_eq,
}
use mozza.Applications.{split_slash, parse_from, parse_int, parse_ready_fraction}

abbrev pub fraction_text : ℕ → ℕ → String
fraction_text a b = template (decimal a ∷ "/" ∷ decimal b ∷ [])

split_slash-rest :
    (ds s : List ℕ)
    → all below_ten ds ≡ true
    → split_slash (map digit_code ds ++ b'/' ∷ s) ≡ map digit_code ds ∷ split_slash s
unfolding split_slash
split_slash-rest [] s h = refl
split_slash-rest (d ∷ ds) s h = ground (arith, split_slash-rest ds s)

split_slash-digits :
    (ds : List ℕ)
    → all below_ten ds ≡ true
    → split_slash (map digit_code ds) ≡ map digit_code ds ∷ []
unfolding split_slash
split_slash-digits [] h = refl
split_slash-digits (d ∷ ds) h = ground (arith, split_slash-digits ds)

parse_from-digits :
    (n : ℕ) (ds : List ℕ)
    → all below_ten ds ≡ true
    → parse_from (some n) (map digit_code ds) ≡ some (value_from n ds)
unfolding parse_from
parse_from-digits n [] h = refl
parse_from-digits n (d ∷ ds) h = ground (arith, parse_from-digits (n * 10 + d) ds)

parse_int-digits :
    (d : ℕ) (ds : List ℕ)
    → all below_ten (d ∷ ds) ≡ true
    → parse_int (map digit_code (d ∷ ds)) ≡ some (value_from 0 (d ∷ ds))
unfolding parse_int parse_from
parse_int-digits d ds h = first ∙ ap (λ (k : ℕ). some (value_from k ds)) (omega arith)
  where
    first : parse_int (map digit_code (d ∷ ds)) ≡ some (value_from d ds)
    first = ground (arith, parse_from-digits d ds)

-- Reading the decimal text of a number gives the number.
pub parse_int-decimal : (n : ℕ) → parse_int (codes (decimal n)) ≡ some n
parse_int-decimal n =
    let (d, (ds, split)) = digits_cons n in
    ap parse_int (codes-decimal n ∙ ap (map digit_code) split)
    ∙ (parse_int-digits d ds (sym (ap (all below_ten) split) ∙ all-digits n)
        ∙ ap some (sym (ap (value_from 0) split) ∙ digits_value n))

codes-fraction :
    (a b : ℕ)
    → codes (fraction_text a b) ≡ map digit_code (digits a) ++ b'/' ∷ map digit_code (digits b)
unfolding template
codes-fraction a b =
    codes-append (decimal a) (template ("/" ∷ decimal b ∷ []))
    ∙ rw
        (
          codes-append "/" (template (decimal b ∷ [])),
          codes-append (decimal b) "",
          codes-decimal a,
          codes-decimal b,
          append-nil (map digit_code (digits b)),
        )
        refl

pub split_slash-fraction :
    (a b : ℕ) → split_slash (codes (fraction_text a b)) ≡ codes (decimal a) ∷ codes (decimal b) ∷ []
split_slash-fraction a b =
    rw (codes-fraction a b, codes-decimal a, codes-decimal b)
      (split_slash-rest (digits a) (map digit_code (digits b)) (all-digits a)
        ∙ ap (λ ss. map digit_code (digits a) ∷ ss) (split_slash-digits (digits b) (all-digits b)))

-- From two numbers written in decimal with a slash between, as Kubernetes writes the ready and all
-- pods, the two numbers are read back.
pub parse_ready_fraction_lem :
    (a b : ℕ) → parse_ready_fraction (fraction_text a b) ≡ record { ready = some a; total = some b }
unfolding parse_ready_fraction
parse_ready_fraction_lem a b =
    rw (parse_ready_fraction, split_slash-fraction a b, parse_int-decimal a, parse_int-decimal b)
      refl
