-- ===== src/Recommendation/Tests.antt =====
-- The theorems about the recommendation at concrete traits.
use mozza.Prelude.{◌≡◌, refl, List, [], ◌∷◌}
use mozza.Interview.{Trait, web_facing, stateful, worker, trait_eq}
use mozza.Recommendation.{get_recommendation, toggle}
use mozza.Recommendation.Sets.{recommendation-toggle}

abbrev chosen : List Trait
chosen = worker ∷ stateful ∷ []

recommendation-toggle_example :
    (get_recommendation (toggle web_facing (toggle worker chosen))
      ≡ get_recommendation (toggle worker (toggle web_facing chosen)))
    × (get_recommendation (toggle web_facing (toggle web_facing chosen))
        ≡ get_recommendation chosen)
recommendation-toggle_example = recommendation-toggle web_facing worker chosen (refl, (refl, tt))
