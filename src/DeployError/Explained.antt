-- ===== src/DeployError/Explained.antt =====
-- Which failures deploy-error-intelligence.ts explains.
use Prim.Native.String
use mathlib.Core.List.{append-nil, append_assoc}
use mozza.Prelude.{
  all, zero, ℕ, suc, ◌≡◌, ◌↔◌, ◌⊎◌, refl, sym, ap, ◌∙◌, Bool, true, false, none, some, List, [],
  ◌∷◌, ◌++◌, String, arith, any, find_iff, join, lower, lower-append, Pattern, is_open, matches,
  matches-append, get_elem?, eq_iff,
}
use mozza.DeployError.{
  analyze_deploy_error, error_patterns, ErrorPattern, entry_matches, full_log,
  get_pizza_stage_label, pizza_stage_labels,
}

-- Whether one of the patterns matches the log.
abbrev pub is_known : List ℕ → Bool
is_known log = any (entry_matches log) error_patterns

-- A failure is explained exactly if its log matches a pattern of the table.
pub analyze_deploy_error-eq-none_iff :
    (log_lines : List String)
    → (analyze_deploy_error log_lines ≡ none) ↔ (is_known (full_log log_lines) ≡ false)
unfolding analyze_deploy_error
analyze_deploy_error-eq-none_iff log_lines =
    ground (arith, find_iff (entry_matches (full_log log_lines)) error_patterns)

-- Every pattern of the entry stays matched as the log grows.
abbrev is_growing : ErrorPattern → Bool
is_growing e = all is_open e.patterns

any-matches-append :
    (ps : List Pattern) (s t : List ℕ)
    → all is_open ps ≡ true
    → any (λ p. matches p s) ps ≡ true
    → any (λ p. matches p (s ++ t)) ps ≡ true
any-matches-append [] s t o h = h
any-matches-append (p ∷ ps) s t o h =
    ground (arith, matches-append p s t, any-matches-append ps s t)

any-entries-append :
    (es : List ErrorPattern) (s t : List ℕ)
    → all is_growing es ≡ true
    → any (entry_matches s) es ≡ true
    → any (entry_matches (s ++ t)) es ≡ true
any-entries-append [] s t o h = h
any-entries-append (e ∷ es) s t o h =
    ground (arith, any-matches-append e.patterns s t, any-entries-append es s t)

lower-line :
    (l rest : String)
    → lower (String.◌++◌ l (String.◌++◌ "\n" rest)) ≡ lower l ++ (lower "\n" ++ lower rest)
lower-line l rest = lower-append l _ ∙ ap (λ t. lower l ++ t) (lower-append "\n" rest)

full_log-append :
    (ls more : List String) → (t : List ℕ) × (full_log (ls ++ more) ≡ full_log ls ++ t)
unfolding join lower
full_log-append [] more = (full_log more, refl)
full_log-append (l ∷ []) [] = ([], sym (append-nil (full_log (l ∷ []))))
full_log-append (l ∷ []) (m ∷ ms) =
    (lower (String.◌++◌ "\n" (join "\n" (m ∷ ms))), lower-append l _)
full_log-append (l ∷ k ∷ ls) more =
    let (t, e) = full_log-append (k ∷ ls) more in
    (
      t,
      lower-line l (join "\n" (k ∷ ls ++ more))
          ∙ (rw e (
              ap (λ u. lower l ++ u) (sym (append_assoc (lower "\n") (full_log (k ∷ ls)) t))
              ∙ (sym (append_assoc (lower l) (lower "\n" ++ full_log (k ∷ ls)) t)
                  ∙ ap (λ u. u ++ t) (sym (lower-line l (join "\n" (k ∷ ls))))))),
    )

-- A failure that is explained stays explained as lines are added to its log: where the longer log
-- is not explained, neither is the shorter.
pub analyze_deploy_error-append :
    (log_lines more : List String)
    → analyze_deploy_error (log_lines ++ more) ≡ none
    → analyze_deploy_error log_lines ≡ none
analyze_deploy_error-append log_lines more h =
    let (t, e) = full_log-append log_lines more in
    ground (
      arith,
      e,
      analyze_deploy_error-eq-none_iff log_lines,
      analyze_deploy_error-eq-none_iff (log_lines ++ more),
      any-entries-append error_patterns (full_log log_lines) t refl,
    )

-- The two tables of stage names agree on the first, second and fifth stage alone.
pub pizza_stage_labels_iff :
    (n : ℕ)
    → (get_elem? pizza_stage_labels n ≡ some (get_pizza_stage_label (suc n)))
      ↔ ((n ≡ 0) ⊎ ((n ≡ 1) ⊎ (n ≡ 4)))
unfolding get_pizza_stage_label
pizza_stage_labels_iff zero = ground arith
pizza_stage_labels_iff (suc zero) = ground arith
pizza_stage_labels_iff (suc (suc zero)) =
    ground (arith, eq_iff "Firing up the oven…" "Prepping ingredients…")
pizza_stage_labels_iff (suc (suc (suc zero))) =
    ground (arith, eq_iff "Checking the crust…" "Firing up the oven…")
pizza_stage_labels_iff (suc (suc (suc (suc zero)))) = ground arith
pizza_stage_labels_iff (suc (suc (suc (suc (suc n))))) = ground arith
