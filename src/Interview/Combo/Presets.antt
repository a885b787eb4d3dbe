-- ===== src/Interview/Combo/Presets.antt =====
-- What applying a preset of interview-engine.ts keeps of a service, and what it replaces.
use mozza.Prelude.{
  ◌≡◌, refl, ◌≢◌, true, not, Option, List, [], ◌∷◌, ◌++◌, String, arith, filter, filter-append,
  filter_idem,
}
use mathlib.Core.List.{append-nil}
use mozza.Interview.{
  ServiceInterviewState, TraitCombo, website, api_database, background_worker, database_only,
  custom, EnvVarEntry, dependency_type_eq,
}
use mozza.Interview.Combo.{apply_combo_defaults}

-- The settings that the user entered.
abbrev pub manual_of : List EnvVarEntry → List EnvVarEntry
manual_of = filter (λ e. not e.auto)

manual_of-append_auto :
    (es : List EnvVarEntry) (u : EnvVarEntry)
    → u.auto ≡ true
    → manual_of (manual_of es ++ u ∷ []) ≡ manual_of es
manual_of-append_auto es u h = simp (filter-append, filter_idem, h, append-nil)

-- A preset leaves the user's own settings as they are, in their order.
pub manual_of-apply_combo_defaults :
    (c : TraitCombo) (s : ServiceInterviewState) (app : Option String)
    → manual_of (apply_combo_defaults c s app).env_vars ≡ manual_of s.env_vars
unfolding apply_combo_defaults
manual_of-apply_combo_defaults website s app = filter_idem _ s.env_vars
manual_of-apply_combo_defaults api_database s app = manual_of-append_auto s.env_vars _ refl
manual_of-apply_combo_defaults background_worker s app = filter_idem _ s.env_vars
manual_of-apply_combo_defaults database_only s app = manual_of-append_auto s.env_vars _ refl
manual_of-apply_combo_defaults custom s app = refl

-- Choosing a preset other than "custom" leaves no trace of the one chosen before.
pub apply_combo_defaults_overrides :
    (c d : TraitCombo) (s : ServiceInterviewState) (app : Option String)
    → d ≢ custom
    → apply_combo_defaults d (apply_combo_defaults c s app) app ≡ apply_combo_defaults d s app
unfolding apply_combo_defaults
apply_combo_defaults_overrides c d s app h = ground (arith, manual_of-apply_combo_defaults c s app)
