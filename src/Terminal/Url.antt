-- ===== src/Terminal/Url.antt =====
-- `buildWsUrl` of DeployTerminal.tsx: where the socket of a build is. What a window knows of the page
-- that it shows is an argument, `none` where there is no window.
use Prim.Native.Char.{code}
use mozza.Prelude.{
  ◌≡◌, refl, not, Option, none, some, [], ◌∷◌, String, template, codes, begins_with, ◌==◌, nat_eq,
  string_eq, if◌then◌else◌, ◌&&◌,
}

pub record Location : Type 0 where
  pub protocol : String
  pub host : String

-- `.replace(/\/$/, "")`
pub without_slash : String → String
without_slash String.[] = ""
without_slash (String.◌∷◌ c s) =
    let rest = without_slash s in if code c == b'/' && s == "" then "" else String.◌∷◌ c rest

-- `.replace(/^http/, "ws")`
abbrev ws_for_http : String → String
ws_for_http (String.◌∷◌ a (String.◌∷◌ b (String.◌∷◌ c (String.◌∷◌ d s)))) =
    if begins_with (code a ∷ code b ∷ code c ∷ code d ∷ []) (codes "http")
    then template ("ws" ∷ s ∷ [])
    else String.◌∷◌ a (String.◌∷◌ b (String.◌∷◌ c (String.◌∷◌ d s)))
ws_for_http s = s

abbrev logs_of : String → String → String
logs_of at build = template (at ∷ "/api/v1/builds/" ∷ build ∷ "/logs" ∷ [])

pub build_ws_url : String → String → Option Location → String
unfolding without_slash
build_ws_url build base loc =
    if not (base == "") then logs_of (without_slash (ws_for_http base)) build else elim loc [
      | none ↦ logs_of "ws://localhost:8080" build
      | some l ↦
          logs_of
            (template ((if l.protocol == "https:" then "wss:" else "ws:") ∷ "//" ∷ l.host ∷ []))
            build
    ]

urls :
    build_ws_url "7" "https://mozza.dev/" none
      ∷ build_ws_url "7" "" (some (record { protocol = "https:"; host = "mozza.dev" }))
      ∷ build_ws_url "7" "" none
      ∷ []
    ≡ "wss://mozza.dev/api/v1/builds/7/logs" ∷ "wss://mozza.dev/api/v1/builds/7/logs"
      ∷ "ws://localhost:8080/api/v1/builds/7/logs" ∷ []
unfolding build_ws_url without_slash template begins_with
urls = refl
