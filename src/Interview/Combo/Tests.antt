-- ===== src/Interview/Combo/Tests.antt =====
-- Runs of the presets, and the theorems about them at concrete inputs.
use mozza.Prelude.{◌≡◌, refl, ◌≢◌, false, none, [], ◌∷◌, template}
use mozza.Interview.{
  ServiceInterviewState, EnvVarEntry, website, api_database, custom, create_default_service_state,
}
use mozza.Interview.Combo.{build_database_url, apply_combo_defaults}
use mozza.Interview.Combo.Presets.{apply_combo_defaults_overrides}

abbrev log_level : EnvVarEntry
log_level = record { key = "LOG_LEVEL"; value = "info"; is_secret = false; auto = false }

abbrev shop : ServiceInterviewState
shop = record create_default_service_state { alias_name = "shop"; env_vars = log_level ∷ [] }

database_url_test : build_database_url "" "mongo" ≡ "mongodb://app-db:27017/app"
unfolding build_database_url template
database_url_test = refl

website-ne-custom : website ≢ custom
website-ne-custom h = cc

apply_combo_defaults_overrides_example :
    apply_combo_defaults website (apply_combo_defaults api_database shop none) none
    ≡ apply_combo_defaults website shop none
apply_combo_defaults_overrides_example =
    apply_combo_defaults_overrides api_database website shop none website-ne-custom
