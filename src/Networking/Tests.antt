-- ===== src/Networking/Tests.antt =====
-- Recommendations at concrete images.
use mozza.Prelude.{
  ◌||◌, ◌&&◌, not, ◌↔◌, ◌⊎◌, ℕ, ◌≡◌, refl, Bool, true, false, Option, none, some, lower, not, ◌↔◌,
  ◌&&◌, ◌⊎◌,
}
use mozza.Networking.Rules.{storage_port-private}
use mozza.Networking.{get_networking_recommendation, get_port_recommendation}

web_word : (get_networking_recommendation "my-web" "acme/site:1" none).is_public ≡ true
unfolding get_networking_recommendation mozza.Prelude.matches mozza.Prelude.contains
    mozza.Prelude.lower mozza.Prelude.template mozza.Prelude.has_word
web_word = refl

no_word : (get_networking_recommendation "my-webs" "acme/site:1" none).is_public ≡ false
unfolding get_networking_recommendation mozza.Prelude.matches mozza.Prelude.contains
    mozza.Prelude.lower mozza.Prelude.template mozza.Prelude.has_word
no_word = refl

port_8080 :
    get_port_recommendation "acme:8080"
    ≡ some (record { port = 8080; label = "Common port for Java/Go APIs" })
unfolding get_port_recommendation mozza.Prelude.matches mozza.Prelude.contains mozza.Prelude.lower
    mozza.Prelude.has_word
port_8080 = refl

storage_port-private_example :
    (get_networking_recommendation "web" "postgres:16" (some "web")).is_public ≡ false
unfolding get_port_recommendation mozza.Prelude.matches mozza.Prelude.contains lower
storage_port-private_example = storage_port-private "web" "postgres:16" (some "web") refl
