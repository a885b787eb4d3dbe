-- ===== src/Prelude/Text.antt =====
-- Text as the source builds it and searches it: template literals, decimal numbers, joining,
-- trimming, lower case, and containment. Lower case is that of ASCII: other letters stay.
pub mod Digits
use Prim.Native.Nat.{ℕ, zero, suc, ◌+◌, ◌-◌, ◌*◌, ◌/◌, ◌%◌, ◌<◌}
use Prim.Native.Char.{Char, code}
use Prim.Native.String
use Prim.Native.String.append
use Prim.Native.String.{String}
use mathlib.Core.Path.{◌≡◌, refl, ap, ◌∙◌}
use mathlib.Core.Logic.{◌↔◌, inl, inr}
use mathlib.Core.Option.{Option, none, some}
use mathlib.Core.Bool.{Bool, true, false, not, ◌&&◌, ◌||◌}
use mathlib.Core.List.{List, [], ◌∷◌, ◌++◌, map, map-append}
use native.Mathlib.Omega.{arith}
use mozza.Prelude.Lists.{length as list_length}
use mozza.Prelude.Tests.{ltb, leb, ◌==◌, nat_eq, string_eq, if◌then◌else◌, Bool-cases}

-- A template literal: its parts, one after the other.
unfoldable pub template : List String → String
template [] = ""
template (s ∷ ss) = String.◌++◌ s (template ss)

-- The digits of a number, the most significant first; the number itself is fuel enough.
digits_from : ℕ → ℕ → List ℕ → List ℕ
digits_from zero n rest = rest
digits_from (suc f) n rest =
    let more = digits_from f (n / 10) (n % 10 ∷ rest) in if ltb n 10 then n ∷ rest else more

unfoldable pub digits : ℕ → List ℕ
unfolding digits_from
digits n = digits_from (suc n) n []

-- The number that a list of digits stands for, after the number `acc`.
abbrev pub value_from : ℕ → List ℕ → ℕ
value_from acc [] = acc
value_from acc (d ∷ ds) = value_from (acc * 10 + d) ds

digits_from_value :
    (f n : ℕ) (rest : List ℕ) → n < f → value_from 0 (digits_from f n rest) ≡ value_from n rest
unfolding digits_from
digits_from_value zero n rest h = elim h [ ]
digits_from_value (suc f) n rest h = elim (Bool-cases (ltb n 10)) [
  | inl small ↦ rw small (ap (λ (k : ℕ). value_from k rest) (omega arith))
  | inr large ↦ rw large (
      digits_from_value f (n / 10) (n % 10 ∷ rest) (ground arith)
      ∙ ap (λ (k : ℕ). value_from k rest) (omega arith))
]

-- The fuel is enough: the digits of a number stand for it.
pub digits_value : (n : ℕ) → value_from 0 (digits n) ≡ n
unfolding digits
digits_value n = digits_from_value (suc n) n [] (omega arith)

abbrev digit_text : ℕ → String
digit_text d =
    if d == 0
    then "0"
    else if d == 1
    then "1"
    else if d == 2
    then "2"
    else if d == 3
    then "3"
    else if d == 4
    then "4"
    else if d == 5
    then "5"
    else if d == 6
    then "6"
    else if d == 7
    then "7"
    else if d == 8
    then "8"
    else "9"

-- `${n}` at a number.
unfoldable pub decimal : ℕ → String
unfolding template digits
decimal n = template (map digit_text (digits n))

-- `.join(sep)`
unfoldable pub join : String → List String → String
join sep [] = ""
join sep (s ∷ []) = s
join sep (s ∷ t ∷ ss) = String.◌++◌ s (String.◌++◌ sep (join sep (t ∷ ss)))

-- The characters that `trim` and `trimEnd` remove.
is_space : ℕ → Bool
is_space c =
    leb 9 c && leb c 13
    || c == 32
    || c == 160
    || c == 5760
    || leb 8192 c && leb c 8202
    || c == 8232
    || c == 8233
    || c == 8239
    || c == 8287
    || c == 12288
    || c == 65279

-- `.trimEnd()`
unfoldable pub trim_end : String → String
unfolding is_space
trim_end String.[] = ""
trim_end (String.◌∷◌ c s) =
    let rest = trim_end s in if is_space (code c) && rest == "" then "" else String.◌∷◌ c rest

-- `.trim()`
unfoldable pub trim : String → String
unfolding is_space trim_end
trim String.[] = ""
trim (String.◌∷◌ c s) =
    let inner = trim s in if is_space (code c) then inner else trim_end (String.◌∷◌ c s)

-- The code points of a text.
abbrev pub codes : String → List ℕ
codes String.[] = []
codes (String.◌∷◌ c s) = code c ∷ codes s

abbrev pub to_lower : ℕ → ℕ
to_lower c = if leb b'A' c && leb c b'Z' then c + 32 else c

-- `.toLowerCase()`
unfoldable pub lower : String → List ℕ
lower s = map to_lower (codes s)

-- `.toLowerCase()` of one character.
lower_char : Char → Char
lower_char c =
    if leb b'A' (code c) && leb (code c) b'Z'
    then String.char_at "abcdefghijklmnopqrstuvwxyz" (code c - b'A')
    else c

-- `.toUpperCase()` of one character.
upper_char : Char → Char
upper_char c =
    if leb b'a' (code c) && leb (code c) b'z'
    then String.char_at "ABCDEFGHIJKLMNOPQRSTUVWXYZ" (code c - b'a')
    else c

-- `s.charAt(0).toUpperCase() + s.slice(1)`
unfoldable pub capitalize : String → String
unfolding upper_char
capitalize String.[] = ""
capitalize (String.◌∷◌ c s) = String.◌∷◌ (upper_char c) s

-- `.replace(/\s+/g, "-")` after `.toLowerCase()`: runs of spaces become one dash.
hyphenate_from : Bool → String → String
unfolding is_space lower_char
hyphenate_from after String.[] = ""
hyphenate_from after (String.◌∷◌ c s) =
    let rest = hyphenate_from (is_space (code c)) s in
    if is_space (code c)
    then (if after then rest else String.◌++◌ "-" rest)
    else String.◌∷◌ (lower_char c) rest

unfoldable pub hyphenate : String → String
unfolding hyphenate_from
hyphenate s = hyphenate_from false s

-- Whether the text begins with the other one.
unfoldable pub begins_with : List ℕ → List ℕ → Bool
begins_with s [] = true
begins_with [] (d ∷ p) = false
begins_with (c ∷ s) (d ∷ p) = c == d && begins_with s p

-- `===` of two texts by their code points.
abbrev pub codes_beq : List ℕ → List ℕ → Bool
codes_beq [] [] = true
codes_beq (c ∷ s) (d ∷ t) = c == d && codes_beq s t
codes_beq _ _ = false

pub codes_beq_iff : (s t : List ℕ) → (codes_beq s t ≡ true) ↔ (s ≡ t)
codes_beq_iff [] [] = ground arith
codes_beq_iff [] (d ∷ t) = ground arith
codes_beq_iff (c ∷ s) [] = ground arith
codes_beq_iff (c ∷ s) (d ∷ t) = ground (arith, codes_beq_iff s t)

pub codes-append : (s t : String) → codes (String.◌++◌ s t) ≡ codes s ++ codes t
codes-append String.[] t = ap codes (append.nil t)
codes-append (String.◌∷◌ c s) t =
    ap codes (append.cons c s t) ∙ ap (λ (r : List ℕ). code c ∷ r) (codes-append s t)

pub lower-append : (s t : String) → lower (String.◌++◌ s t) ≡ lower s ++ lower t
unfolding lower
lower-append s t = ap (map to_lower) (codes-append s t) ∙ map-append to_lower (codes s) (codes t)

-- `.includes(p)` of a text.
unfoldable pub contains : List ℕ → List ℕ → Bool
unfolding begins_with
contains [] p = begins_with [] p
contains (c ∷ s) p = begins_with (c ∷ s) p || contains s p

-- The text up to the first space.
word_of : String → String
unfolding is_space
word_of String.[] = ""
word_of (String.◌∷◌ c s) =
    let rest = word_of s in if is_space (code c) then "" else String.◌∷◌ c rest

-- Whether the word goes on after the scheme.
abbrev longer_than : List ℕ → List ℕ → Bool
longer_than w p = begins_with w p && not (codes_beq w p)

-- `.match(/https?:\/\/\S+/)`
unfoldable pub find_url : String → Option String
unfolding word_of begins_with
find_url String.[] = none
find_url (String.◌∷◌ c s) =
    let w = word_of (String.◌∷◌ c s) in
    let rest = find_url s in
    if longer_than (codes w) (codes "http://") || longer_than (codes w) (codes "https://")
    then some w
    else rest

-- Puts a character in front of the first text.
abbrev onto_first : Char → List String → List String
onto_first c [] = String.◌∷◌ c "" ∷ []
onto_first c (s ∷ ss) = String.◌∷◌ c s ∷ ss

-- `.split("\n")`
unfoldable pub split_lines : String → List String
split_lines String.[] = "" ∷ []
split_lines (String.◌∷◌ c s) =
    let rest = split_lines s in if code c == 10 then "" ∷ rest else onto_first c rest

-- `.replaceAll(p, v)` of a text `p` that is not empty; `skip` characters belong to the last match.
replace_from : String → String → ℕ → String → String
replace_from p v skip String.[] = ""
replace_from p v (suc skip) (String.◌∷◌ c s) = replace_from p v skip s
replace_from p v zero (String.◌∷◌ c s) =
    let matched = replace_from p v (list_length (codes p) - 1) s in
    let other = replace_from p v zero s in
    if begins_with (codes (String.◌∷◌ c s)) (codes p)
    then String.◌++◌ v matched
    else String.◌∷◌ c other

unfoldable pub replace_all : String → String → String → String
unfolding replace_from begins_with
replace_all p v s = replace_from p v 0 s

decimal_test : join "\n" (decimal 0 ∷ decimal 5432 ∷ trim_end "a b \n" ∷ []) ≡ "0\n5432\na b"
unfolding decimal join trim_end
decimal_test = refl

contains_test : contains (lower "My-POSTGRES") (codes "postgres") ≡ true
unfolding contains lower
contains_test = refl

hyphenate_test : hyphenate "My  Web App" ≡ "my-web-app"
unfolding hyphenate
hyphenate_test = refl

find_url_test : find_url "See http:// or https://shop.example/a now" ≡ some "https://shop.example/a"
unfolding find_url
find_url_test = refl

split_lines_test : split_lines "a\n\nbc" ≡ "a" ∷ "" ∷ "bc" ∷ []
unfolding split_lines
split_lines_test = refl

replace_all_test : replace_all "{a}" "1" "x{a}{a}{b}" ≡ "x11{b}"
unfolding replace_all
replace_all_test = refl
