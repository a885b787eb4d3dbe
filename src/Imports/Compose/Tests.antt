-- ===== src/Imports/Compose/Tests.antt =====
-- Examples of the import of ui/src/components/deploy/ComposeImport.tsx.
use mozza.Prelude.{
  all_in, any, filter, nat_eq, ◌==◌, not, ◌≡◌, refl, Bool, true, false, Option, none, some, List,
  [], ◌∷◌, ◌++◌, String, ℕ, includes,
}
use mozza.Imports.Compose.{
  first_compose, Compose, ComposeEvent, compose_event, compose_events, handle_dismiss_warning,
  typed, parse, use_recipe, to_preview, answer, failure, dismiss, ComposeParseResult, warn,
  visible_warnings, is_awaiting, handle_parse, parse_answered, type_content, handle_use_recipe,
  is_yaml, ends_in, not_parsed, friendly,
}
use mozza.Imports.Compose.Warnings.{visible_warnings-is_dismissed}
use mozza.Imports.Compose.Handed.{answered_recipes, is_parsing, compose_events-handed}

abbrev a_result : ComposeParseResult
a_result = record {
  services = [];
  recipe = "Slices:";
  warnings =
      record { feature = "build"; message = "not supported"; severity = warn }
      ∷ record { feature = "volumes"; message = "not kept"; severity = warn }
      ∷ [];
}

abbrev some_events : List ComposeEvent
some_events = typed "services:" ∷ parse ∷ answer a_result ∷ dismiss 0 ∷ to_preview ∷ use_recipe ∷ []

recipe_handed : (compose_events some_events first_compose).handed ≡ "Slices:" ∷ []
unfolding compose_event handle_parse parse_answered type_content handle_dismiss_warning
    handle_use_recipe mozza.Prelude.trim
recipe_handed = refl

yaml_name : is_yaml "Docker-Compose.YML" ≡ true
unfolding ends_in mozza.Prelude.lower
yaml_name = refl

no_services :
    (compose_events
      (typed "a" ∷ parse ∷ failure "400: no services found" ∷ [])
      first_compose).error_text
    ≡ "No services found — make sure your file has a 'services:' section."
unfolding compose_event handle_parse type_content not_parsed friendly mozza.Prelude.trim
    mozza.Prelude.contains
no_services = refl

abbrev with_warnings : Compose
with_warnings = record first_compose { warnings = a_result.warnings; dismissed_warnings = 0 ∷ [] }

visible_warnings-is_dismissed_example :
    any (λ v. v.0 == 0) (visible_warnings (compose_events some_events with_warnings)) ≡ false
visible_warnings-is_dismissed_example =
    visible_warnings-is_dismissed 0 some_events with_warnings refl

compose_events-handed_example :
    (all_in (answered_recipes some_events) (compose_events some_events first_compose).handed ≡ true)
    × (is_parsing (compose_events some_events first_compose).phase
        ≡ is_awaiting (compose_events some_events first_compose).awaited)
compose_events-handed_example = compose_events-handed some_events
