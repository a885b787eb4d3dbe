-- ===== src/Networking/Rules.antt =====
-- Which services networking-recommendations.ts keeps private, and on which ports.
use mozza.Prelude.{
  refl, includes, [], ◌∷◌, ◌⊎◌, nat_eq, ℕ, ◌≡◌, ◌↔◌, Bool, true, false, not, ◌&&◌, ◌||◌, Option,
  none, some, List, String, arith, any, find, find_iff, Option-cases, inl, inr, matches, lower,
  lower-append, template, if◌then◌else◌, ap, contains, includes, ◌++◌, ◌∙◌, ◌⊎◌, [],
  contains-prepend, sym, contains-append,
}
use mozza.Networking.{
  get_networking_recommendation, get_port_recommendation, recommend, private_patterns,
  public_patterns, api_patterns, is_kind, search_text, PortRecommendation, high,
}

abbrev pub is_storage : Option String → Bool
is_storage kind = is_kind "database" kind || is_kind "cache" kind

-- Whether a pattern of the list matches.
abbrev pub looks_private : List ℕ → Bool
looks_private s = any (λ p. matches p.pattern s) private_patterns

abbrev pub looks_public : List ℕ → Bool
looks_public s = any (λ p. matches p.pattern s) public_patterns

abbrev pub looks_like_api : List ℕ → Bool
looks_like_api s = any (λ p. matches p.pattern s) api_patterns

-- A service is recommended to be public exactly if it is no database or cache, no private pattern
-- matches its name and image, and it looks public, is of kind "web", or looks like an API.
pub is_public_lem :
    (name image : String) (kind : Option String)
    → (get_networking_recommendation name image kind).is_public ≡ (
        not (is_storage kind)
        && not (looks_private (search_text name image))
        && (looks_public (search_text name image)
            || is_kind "web" kind
            || looks_like_api (search_text name image)))
unfolding get_networking_recommendation recommend
is_public_lem name image kind =
    let s = search_text name image in
    ground (
      arith,
      find_iff (λ p. matches p.pattern s) private_patterns,
      find_iff (λ p. matches p.pattern s) public_patterns,
      find_iff (λ p. matches p.pattern s) api_patterns,
    )

-- A warning comes with exactly the recommendations of a private pattern, and those are private,
-- with high confidence.
pub override_warning_lem :
    (name image : String) (kind : Option String)
    → let r = get_networking_recommendation name image kind in
      ((r.override_warning ≡ none) ↔ (looks_private (search_text name image) ≡ false))
      × ((r.override_warning ≡ none) ⊎ ((r.is_public ≡ false) × (r.confidence ≡ high)))
unfolding get_networking_recommendation recommend
override_warning_lem name image kind =
    let s = search_text name image in
    (
      ground (
        arith,
        find_iff (λ p. matches p.pattern s) private_patterns,
        find_iff (λ p. matches p.pattern s) public_patterns,
      ),
      ground arith,
    )

-- The text that is searched, part by part.
search_text_parts :
    (name image : String)
    → search_text name image ≡ lower name ++ (lower " " ++ (lower image ++ []))
unfolding template lower
search_text_parts name image =
    lower-append name _
    ∙ ap (λ t. lower name ++ t)
        (lower-append " " _ ∙ ap (λ t. lower " " ++ t) (lower-append image ""))

search_text-lower :
    (name name' image image' : String)
    → lower name ≡ lower name'
    → lower image ≡ lower image'
    → search_text name image ≡ search_text name' image'
search_text-lower name name' image image' hn hi =
    search_text_parts name image ∙ (rw (hn, hi) refl ∙ sym (search_text_parts name' image'))

-- What an image contains, the text that is searched contains.
contains-search_text :
    (name image : String) (p : List ℕ)
    → contains (lower image) p ≡ true
    → contains (search_text name image) p ≡ true
contains-search_text name image p h = rw search_text_parts (
    contains-prepend (lower name) _ p
      (contains-prepend (lower " ") _ p (contains-append (lower image) [] p h)))

private_image :
    (name image : String)
    → looks_private (lower image) ≡ true
    → looks_private (search_text name image) ≡ true
unfolding mozza.Prelude.matches
private_image name image h = ground (
  arith,
  contains-search_text name image (lower "postgres"),
  contains-search_text name image (lower "mysql"),
  contains-search_text name image (lower "mongo"),
  contains-search_text name image (lower "redis"),
  contains-search_text name image (lower "memcached"),
  contains-search_text name image (lower "rabbitmq"),
  contains-search_text name image (lower "kafka"),
)

-- The recommendation does not look at the case of the letters.
pub get_networking_recommendation-lower :
    (name name' image image' : String) (kind : Option String)
    → lower name ≡ lower name'
    → lower image ≡ lower image'
    → get_networking_recommendation name image kind
      ≡ get_networking_recommendation name' image' kind
unfolding get_networking_recommendation
get_networking_recommendation-lower name name' image image' kind hn hi =
    ap (λ s. recommend s kind) (search_text-lower name name' image image' hn hi)

-- The ports of databases, caches and brokers.
abbrev pub is_storage_port : Option PortRecommendation → Bool
is_storage_port none = false
is_storage_port (some r) = includes (5432 ∷ 3306 ∷ 27017 ∷ 6379 ∷ 11211 ∷ 5672 ∷ 9092 ∷ []) r.port

storage_port-image :
    (image : String)
    → is_storage_port (get_port_recommendation image) ≡ true
    → looks_private (lower image) ≡ true
unfolding get_port_recommendation
storage_port-image image h = ground arith

-- An image that is given the port of a database, cache or broker is kept private.
pub storage_port-private :
    (name image : String) (kind : Option String)
    → is_storage_port (get_port_recommendation image) ≡ true
    → (get_networking_recommendation name image kind).is_public ≡ false
unfolding get_port_recommendation
storage_port-private name image kind h =
    ground
      (arith, is_public_lem name image kind, private_image name image (storage_port-image image h))
