-- ===== src/Imports/GitHub/Tests.antt =====
-- Examples of the import of ui/src/components/deploy/GitHubImport.tsx.
use mozza.Prelude.{◌≡◌, refl, Bool, true, false, Option, none, some, List, [], ◌∷◌, ◌++◌, String}
use mozza.Imports.GitHub.{
  first_github, GitHub, GitHubEvent, github_event, github_events, type_url, scan, edit, check,
  use_recipe, scan_answer, check_answer, ScanResult, is_valid_url, handle_scan, scanned,
  image_checked, check_image, handle_use_recipe, scan_message, results,
}
use mozza.Imports.GitHub.Edited.{edit-use_recipe}

valid : is_valid_url " HTTPS://GitHub.com/acme/shop.git " ≡ true
unfolding is_valid_url mozza.Prelude.trim mozza.Prelude.lower mozza.Prelude.begins_with
valid = refl

no_repository : is_valid_url "https://github.com/acme" ≡ false
unfolding is_valid_url mozza.Prelude.trim mozza.Prelude.lower mozza.Prelude.begins_with
no_repository = refl

too_many :
    scan_message "403: rate limit"
    ≡ "GitHub API rate limit reached. Try again in a minute, or provide a token."
unfolding scan_message mozza.Prelude.contains
too_many = refl

abbrev result_of : String → ScanResult
result_of text = record {
  repo_url = "https://github.com/acme/shop";
  repo_name = "shop";
  description = "";
  sources = [];
  generated = some (record {
    source = text;
    method = "compose";
    editable = true;
    needs_build = true;
    build_instructions = some "docker build";
  });
  warnings = [];
}

abbrev shop : List GitHubEvent
shop = type_url "https://github.com/acme/shop" ∷ scan ∷ scan_answer (result_of "Slices: a") ∷ []

-- The answer about another repository replaces the one that was scanned last.
abbrev late_check : List GitHubEvent
late_check =
    shop
    ++ check
      ∷ type_url "https://github.com/acme/blog"
      ∷ scan
      ∷ scan_answer (result_of "Slices: blog")
      ∷ check_answer (some (result_of "Slices: a"))
      ∷ use_recipe
      ∷ []

late_check_handed : (github_events late_check first_github).handed ≡ "Slices: a" ∷ []
unfolding github_event handle_scan scanned image_checked check_image handle_use_recipe is_valid_url
    mozza.Prelude.trim mozza.Prelude.lower mozza.Prelude.begins_with
late_check_handed = refl

edit-use_recipe_example :
    (github_events (edit ∷ use_recipe ∷ []) (github_events shop first_github)).handed
    ≡ (github_event use_recipe (github_events shop first_github)).handed
unfolding github_event handle_scan scanned image_checked check_image handle_use_recipe is_valid_url
    mozza.Prelude.trim mozza.Prelude.lower mozza.Prelude.begins_with
edit-use_recipe_example = edit-use_recipe shop refl refl refl

abbrev editing_shop : GitHub
editing_shop = record first_github {
  scan_state = results;
  scan_result = some (result_of "Slices: a");
  editing = true;
  edited_source = "Slices: mine";
  checking_ghcr = true;
}
