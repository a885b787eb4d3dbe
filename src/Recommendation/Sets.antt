-- ===== src/Recommendation/Sets.antt =====
-- The recommendation as a function of the set of traits: the order in which the user picked them is
-- forgotten.
use mathlib.Core.Quot
use text.Mathlib.TextEquality.{IsScalar-prop}
use mathlib.Core.Quot.{Quot, Quot-set}
use mozza.Prelude.{
  ◌≡◌, refl, ap, Bool, Option, none, List, [], ◌∷◌, arith, includes, get_elem?, if◌then◌else◌,
}
use mozza.Interview.{Trait, web_facing, stateful, worker, trait_eq}
use mozza.Recommendation.{
  Recommendation, InferenceRule, rules, first_match, get_recommendation, toggle,
}
use mozza.Recommendation.Rules.{NoRepeats, toggle-NoRepeats, includes-toggle}

-- The rule by the traits alone, without their number: storage first, then the web, then tasks.
abbrev pub rule_of : Bool → Bool → Bool → Option InferenceRule
rule_of web data_ tasks =
    if data_
    then (if web
        then (if tasks then get_elem? rules 0 else get_elem? rules 1)
        else (if tasks then get_elem? rules 2 else get_elem? rules 3))
    else if web
    then get_elem? rules 4
    else if tasks
    then get_elem? rules 5
    else none

first_match_lem :
    (ts : List Trait)
    → NoRepeats ts
    → first_match ts ≡ rule_of (includes ts web_facing) (includes ts stateful) (includes ts worker)
unfolding first_match
first_match_lem [] h = refl
first_match_lem (t ∷ []) h = ground arith
first_match_lem (t ∷ u ∷ ts) h = ground arith

-- Lists of the same traits get the same recommendation.
get_recommendation-same :
    (ts us : List Trait)
    → NoRepeats ts
    → NoRepeats us
    → ((t : Trait) → includes ts t ≡ includes us t)
    → get_recommendation ts ≡ get_recommendation us
unfolding get_recommendation
get_recommendation-same ts us h k same =
    rw
      (
        get_recommendation,
        first_match_lem ts h,
        first_match_lem us k,
        same web_facing,
        same stateful,
        same worker,
      )
      refl

-- What the user has picked: a list without repeats, up to its order.
abbrev Picked : Type 0
Picked = (ts : List Trait) × NoRepeats ts

abbrev SameTraits : Picked → Picked → Type 0
SameTraits p q = (t : Trait) → includes p.0 t ≡ includes q.0 t

abbrev TraitSet : Type 0
TraitSet = Quot SameTraits

recommendation_set : IsSet Recommendation
recommendation_set = hlevel (IsScalar-prop)

recommended_for : TraitSet → Recommendation
recommended_for =
    Quot.lift recommendation_set (λ p. get_recommendation p.0)
      (λ p q same. get_recommendation-same p.0 q.0 p.1 q.1 same)

clicked : Trait → Picked → Picked
clicked t p = (toggle t p.0, toggle-NoRepeats t p.0 p.1)

click : Trait → TraitSet → TraitSet
unfolding clicked
click t =
    Quot.lift Quot-set (λ p. Quot.mk (clicked t p))
      (λ p q same.
        Quot.sound (λ u. rw (includes-toggle t u p.0, includes-toggle t u q.0, same u) refl))

click_comm : (t u : Trait) (s : TraitSet) → click t (click u s) ≡ click u (click t s)
unfolding click clicked
click_comm t u =
    Quot.ind (λ s. Quot-set _ _)
      (λ p. Quot.sound (λ v. ground (
        arith,
        includes-toggle t v (toggle u p.0),
        includes-toggle u v p.0,
        includes-toggle u v (toggle t p.0),
        includes-toggle t v p.0,
      )))

click_twice : (t : Trait) (s : TraitSet) → click t (click t s) ≡ s
unfolding click clicked
click_twice t =
    Quot.ind (λ s. Quot-set _ _)
      (λ p.
        Quot.sound
          (λ v. ground (arith, includes-toggle t v (toggle t p.0), includes-toggle t v p.0)))

-- From traits without repeats, the recommendation does not depend on the order of two clicks, and
-- two clicks on one trait leave it as it is.
pub recommendation-toggle :
    (t u : Trait) (ts : List Trait)
    → NoRepeats ts
    → (get_recommendation (toggle t (toggle u ts)) ≡ get_recommendation (toggle u (toggle t ts)))
      × (get_recommendation (toggle t (toggle t ts)) ≡ get_recommendation ts)
unfolding click recommended_for clicked
recommendation-toggle t u ts h =
    let picked : TraitSet = Quot.mk (ts, h) in
    (ap recommended_for (click_comm t u picked), ap recommended_for (click_twice t picked))
