-- ===== src/Networking.antt =====
-- ui/src/lib/networking-recommendations.ts: whether a service should be public, and its port.
pub mod Rules
mod Tests
use mozza.Prelude.{
  ℕ, Bool, true, false, ◌||◌, Option, none, some, List, [], ◌∷◌, String, template, lower, find,
  Pattern, phrase, word, matches, ◌==◌, string_eq, if◌then◌else◌,
}

pub data Confidence : Type 0 where
  high medium low : Confidence

pub record NetworkRecommendation : Type 0 where
  pub is_public : Bool
  pub reason : String
  pub confidence : Confidence
  pub override_warning : Option String

pub record PortRecommendation : Type 0 where
  pub port : ℕ
  pub label : String

-- An entry of `publicPatterns` and `apiPatterns`.
pub record PublicPattern : Type 0 where
  pub pattern : Pattern
  pub reason : String

pub record PrivatePattern : Type 0 where
  pub pattern : Pattern
  pub reason : String
  pub warning : String

-- An entry of `portMap`.
pub record PortEntry : Type 0 where
  pub pattern : Pattern
  pub port : ℕ
  pub label : String

abbrev pub public_patterns : List PublicPattern
public_patterns =
    record { pattern = phrase "nginx"; reason = "Web servers are typically public-facing" }
    ∷ record { pattern = phrase "frontend"; reason = "Frontend apps serve users directly" }
    ∷ record { pattern = word "web"; reason = "Web services are typically public-facing" }
    ∷ record { pattern = word "ui"; reason = "UI services serve users directly" }
    ∷ record { pattern = phrase "gateway"; reason = "API gateways handle external traffic" }
    ∷ []

abbrev pub private_patterns : List PrivatePattern
private_patterns =
    record {
      pattern = phrase "postgres";
      reason = "Databases should not be exposed to the internet";
      warning =
          "Exposing a database publicly is a security risk. Only do this if you know what you're doing.";
    }
    ∷ record {
      pattern = phrase "mysql";
      reason = "Databases should not be exposed to the internet";
      warning =
          "Exposing a database publicly is a security risk. Only do this if you know what you're doing.";
    }
    ∷ record {
      pattern = phrase "mongo";
      reason = "Databases should not be exposed to the internet";
      warning =
          "Exposing a database publicly is a security risk. Only do this if you know what you're doing.";
    }
    ∷ record {
      pattern = phrase "redis";
      reason = "Cache services should stay internal";
      warning = "Exposing Redis publicly can lead to data breaches.";
    }
    ∷ record {
      pattern = phrase "memcached";
      reason = "Cache services should stay internal";
      warning = "Exposing Memcached publicly can lead to data breaches.";
    }
    ∷ record {
      pattern = phrase "rabbitmq";
      reason = "Message queues should stay internal";
      warning = "Exposing message queues publicly is a security risk.";
    }
    ∷ record {
      pattern = phrase "kafka";
      reason = "Message brokers should stay internal";
      warning = "Exposing Kafka publicly is a security risk.";
    }
    ∷ []

abbrev pub api_patterns : List PublicPattern
api_patterns =
    record {
      pattern = word "api";
      reason = "API services are often public, but consider using a gateway";
    }
    ∷ record {
      pattern = phrase "backend";
      reason = "Backend services can be public if they serve API requests directly";
    }
    ∷ record {
      pattern = phrase "server";
      reason = "Server processes may need external access depending on your setup";
    }
    ∷ []

-- `pattern.test` of the first entry that matches.
abbrev pub private_match : List ℕ → Option PrivatePattern
private_match s = find (λ p. matches p.pattern s) private_patterns

abbrev pub public_match : List ℕ → Option PublicPattern
public_match s = find (λ p. matches p.pattern s) public_patterns

abbrev pub api_match : List ℕ → Option PublicPattern
api_match s = find (λ p. matches p.pattern s) api_patterns

-- `kind === k`, where the kind may be missing.
abbrev pub is_kind : String → Option String → Bool
is_kind k none = false
is_kind k (some kind) = kind == k

-- The text that is searched, in lower case: the patterns do not look at the case.
abbrev pub search_text : String → String → List ℕ
search_text slice_name image = lower (template (slice_name ∷ " " ∷ image ∷ []))

-- The recommendation for a database or cache.
abbrev for_storage : Option PrivatePattern → NetworkRecommendation
for_storage none = record {
  is_public = false;
  reason = "Internal services should not be publicly accessible";
  confidence = high;
  override_warning = none;
}
for_storage (some p) = record {
  is_public = false;
  reason = p.reason;
  confidence = high;
  override_warning = some p.warning;
}

abbrev public_for : String → Confidence → NetworkRecommendation
public_for reason confidence = record {
  is_public = true;
  reason = reason;
  confidence = confidence;
  override_warning = none;
}

abbrev private_by_default : NetworkRecommendation
private_by_default = record {
  is_public = false;
  reason = "Private by default — safer for services that don't need external access";
  confidence = low;
  override_warning = none;
}

-- From the test of the kind "web" on.
abbrev for_web : List ℕ → Option String → NetworkRecommendation
for_web s kind =
    if is_kind "web" kind
    then public_for "Web services typically serve users directly" medium
    else elim (api_match s) [ none ↦ private_by_default | some p ↦ public_for p.reason medium ]

-- `getNetworkingRecommendation`, from the text that is searched.
pub recommend : List ℕ → Option String → NetworkRecommendation
recommend s kind =
    if is_kind "database" kind || is_kind "cache" kind
    then for_storage (private_match s)
    else elim (private_match s) [
      | some p ↦ for_storage (some p)
      | none ↦ elim (public_match s) [ some p ↦ public_for p.reason high | none ↦ for_web s kind ]
    ]

unfoldable pub get_networking_recommendation :
    String → String → Option String → NetworkRecommendation
unfolding recommend
get_networking_recommendation slice_name image kind = recommend (search_text slice_name image) kind

abbrev pub port_map : List PortEntry
port_map =
    record { pattern = phrase "nginx"; port = 80; label = "Common port for Nginx" }
    ∷ record { pattern = phrase "postgres"; port = 5432; label = "Common port for PostgreSQL" }
    ∷ record { pattern = phrase "mysql"; port = 3306; label = "Common port for MySQL" }
    ∷ record { pattern = phrase "mongo"; port = 27017; label = "Common port for MongoDB" }
    ∷ record { pattern = phrase "redis"; port = 6379; label = "Common port for Redis" }
    ∷ record { pattern = phrase "memcached"; port = 11211; label = "Common port for Memcached" }
    ∷ record { pattern = phrase "rabbitmq"; port = 5672; label = "Common port for RabbitMQ" }
    ∷ record { pattern = phrase "kafka"; port = 9092; label = "Common port for Kafka" }
    ∷ record { pattern = word "3000"; port = 3000; label = "Common port for Node.js apps" }
    ∷ record { pattern = word "8080"; port = 8080; label = "Common port for Java/Go APIs" }
    ∷ []

abbrev port_of : Option PortEntry → Option PortRecommendation
port_of none = none
port_of (some e) = some (record { port = e.port; label = e.label })

unfoldable pub get_port_recommendation : String → Option PortRecommendation
get_port_recommendation image = port_of (find (λ e. matches e.pattern (lower image)) port_map)
