-- ===== src/Recommendation/Rules.antt =====
-- What the rules of recommendation-engine.ts amount to, on the traits that the panel can produce.
use mozza.Prelude.{
  ◌≡◌, refl, ◌↔◌, true, false, not, ◌&&◌, none, List, [], ◌∷◌, ◌++◌, String, arith, filter,
  includes, ◌==◌, string_eq, includes-append, if◌then◌else◌, eq_iff,
}
use mozza.Interview.{
  Trait, stateful, trait_eq, workload_type_beq_iff, WorkloadType, statefulset, cronjob,
  workload_type_eq,
}
use mozza.Recommendation.{first_match, get_recommendation, toggle, select_workload}

-- No trait is listed twice.
abbrev pub NoRepeats : List Trait → Type 0
NoRepeats [] = Unit
NoRepeats (t ∷ ts) = (includes ts t ≡ false) × NoRepeats ts

-- Of a list of traits without repeats, storage of its own is recommended exactly if the service
-- stores data.
pub recommends_statefulset_iff :
    (ts : List Trait)
    → NoRepeats ts
    → ((get_recommendation ts).workload_type ≡ statefulset) ↔ (includes ts stateful ≡ true)
unfolding get_recommendation
recommends_statefulset_iff [] h = ground arith
recommends_statefulset_iff (t ∷ []) h = ground arith
recommends_statefulset_iff (t ∷ u ∷ ts) h = ground arith

-- The fallback is for the empty list alone: any other list of traits matches a rule.
pub first_match-eq-none_iff : (ts : List Trait) → NoRepeats ts → (first_match ts ≡ none) ↔ (ts ≡ [])
unfolding first_match
first_match-eq-none_iff [] h = ground arith
first_match-eq-none_iff (t ∷ []) h = ground arith
first_match-eq-none_iff (t ∷ u ∷ ts) h = ground arith

includes-without :
    (t u : Trait) (ts : List Trait)
    → includes (filter (λ v. not (v == t)) ts) u ≡ (includes ts u && not (u == t))
includes-without t u [] = refl
includes-without t u (v ∷ ts) = ground (arith, includes-without t u ts)

NoRepeats-append :
    (ts : List Trait) (t : Trait) → NoRepeats ts → includes ts t ≡ false → NoRepeats (ts ++ t ∷ [])
NoRepeats-append [] t h k = ground arith
NoRepeats-append (u ∷ ts) t h k =
    ground (arith, includes-append ts (t ∷ []) u, NoRepeats-append ts t h.1)

NoRepeats-filter :
    (t : Trait) (ts : List Trait) → NoRepeats ts → NoRepeats (filter (λ v. not (v == t)) ts)
NoRepeats-filter t [] h = h
NoRepeats-filter t (v ∷ ts) h = ground (arith, includes-without t v ts, NoRepeats-filter t ts h.1)

-- A click keeps the list without repeats.
pub toggle-NoRepeats : (t : Trait) (ts : List Trait) → NoRepeats ts → NoRepeats (toggle t ts)
unfolding toggle
toggle-NoRepeats t ts h = ground (arith, NoRepeats-filter t ts h, NoRepeats-append ts t h)

-- A click turns its trait on or off, and changes no other.
pub includes-toggle :
    (t u : Trait) (ts : List Trait)
    → includes (toggle t ts) u ≡ (if t == u then not (includes ts u) else includes ts u)
unfolding toggle
includes-toggle t u ts = ground (arith, includes-without t u ts, includes-append ts (t ∷ []) u)

-- A chosen workload counts as the user's own exactly if it is not the recommended one, and a
-- scheduled one is never left without a schedule.
pub select_workload_lem :
    (ts : List Trait) (schedule : String) (wt : WorkloadType)
    → ((select_workload ts schedule wt).workload_overridden ≡ false
        ↔ (wt ≡ (get_recommendation ts).workload_type))
      × ¬ ((wt ≡ cronjob) × ((select_workload ts schedule wt).schedule ≡ ""))
unfolding select_workload
select_workload_lem ts schedule wt = (
  ground (arith, workload_type_beq_iff wt (get_recommendation ts).workload_type),
  ground (arith, eq_iff schedule "", eq_iff "0 * * * *" ""),
)
