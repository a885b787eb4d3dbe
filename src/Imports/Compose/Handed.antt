-- ===== src/Imports/Compose/Handed.antt =====
-- The recipes that ui/src/components/deploy/ComposeImport.tsx hands over, and the requests it awaits.
use mozza.Prelude.{
  all_in, all_in_self, all_in-snoc, ℕ, ◌≡◌, refl, Bool, true, false, not, ◌||◌, List, [], ◌∷◌,
  String, arith, string_eq, Bool-cases, inl, inr, includes, trim, ltb, ◌*◌,
}
use mozza.Recipe.{given}
use mozza.Imports.Compose.{
  first_compose, Compose, ComposeEvent, compose_event, compose_events, handle_dismiss_warning,
  typed, read, upload, parse, use_recipe, to_input, to_preview, to_breakdown, answer, failure,
  dismiss, toggle, handle_file_upload, handle_parse, in_text, is_input, is_breakdown, is_preview,
  is_awaiting, where_shown, Phase, input, parsing, preview, breakdown, type_content, file_read,
  parse_answered, not_parsed, handle_use_recipe, toggle_service, is_yaml,
}

-- The recipes that the server has answered with.
abbrev pub answered_recipes : List ComposeEvent → List String
answered_recipes [] = []
answered_recipes (answer r ∷ es) = r.recipe ∷ answered_recipes es
answered_recipes (_ ∷ es) = answered_recipes es

abbrev pub is_parsing : Phase → Bool
is_parsing parsing = true
is_parsing input = false
is_parsing breakdown = false
is_parsing preview = false

abbrev pub is_past : Phase → Bool
is_past p = is_breakdown p || is_preview p

-- The recipes handed over are known, and so is the one that is shown; and an answer is awaited exactly
-- while the page says that the file is being read.
abbrev pub IsFaithful : List String → Compose → Type 0
IsFaithful known c =
    (all_in known c.handed ≡ true)
    × ((not (is_past c.phase) || includes known c.recipe) ≡ true)
    × (is_parsing c.phase ≡ is_awaiting c.awaited)

where_shown-IsFaithful :
    (known : List String) (shown : Bool) (f : Compose → Compose) (c : Compose)
    → IsFaithful known c
    → (shown ≡ true → IsFaithful known (f c))
    → IsFaithful known (where_shown shown f c)
where_shown-IsFaithful known false f c h k = h
where_shown-IsFaithful known true f c h k = k refl

upload-IsFaithful :
    (known : List String) (size : ℕ) (name : String) (c : Compose)
    → IsFaithful known c
    → IsFaithful known (handle_file_upload size name c).1
unfolding handle_file_upload
upload-IsFaithful known size name c h = elim (Bool-cases (ltb (1024 * 1024) size)) [
  | inl y ↦ rw y h
  | inr n ↦ elim (Bool-cases (not (is_yaml name))) [ inl y ↦ rw (n, y) h | inr m ↦ rw (n, m) h ]
]

parse-IsFaithful :
    (known : List String) (c : Compose) → IsFaithful known c → IsFaithful known (handle_parse c)
unfolding handle_parse
parse-IsFaithful known c h = elim (Bool-cases (given (trim c.content))) [
  | inl y ↦ rw y (h.0, refl, refl)
  | inr n ↦ rw n h
]

-- From a phase in which a recipe is shown, the page goes to another in which nothing is awaited.
moved-IsFaithful :
    (known : List String) (x y : Phase) (c : Compose)
    → is_past x ≡ true
    → is_parsing y ≡ false
    → (not (is_past x) || includes known c.recipe) ≡ true
    → is_parsing x ≡ is_awaiting c.awaited
    → ((not (is_past y) || includes known c.recipe) ≡ true) × (is_parsing y ≡ is_awaiting c.awaited)
moved-IsFaithful known x y c h k a b = (ground arith, ground arith)

use_recipe-IsFaithful :
    (known : List String) (c : Compose)
    → is_preview c.phase ≡ true
    → IsFaithful known c
    → IsFaithful known (handle_use_recipe c)
unfolding handle_use_recipe
use_recipe-IsFaithful known c y (a, b, d) =
    (all_in-snoc known c.handed c.recipe a (ground arith), b, d)

-- The recipe of one event.
abbrev pub recipe_in : List String → ComposeEvent → Bool
recipe_in known (answer r) = includes known r.recipe
recipe_in known _ = true

is_past-breakdown : (x : Phase) → is_breakdown x ≡ true → is_past x ≡ true
is_past-breakdown x h = ground arith

is_past-preview : (x : Phase) → is_preview x ≡ true → is_past x ≡ true
is_past-preview x h = ground arith

event-IsFaithful :
    (known : List String) (e : ComposeEvent) (c : Compose)
    → recipe_in known e ≡ true
    → IsFaithful known c
    → IsFaithful known (compose_event e c)
unfolding compose_event type_content file_read parse_answered not_parsed handle_dismiss_warning
    toggle_service
event-IsFaithful known (typed text) c k h =
    where_shown-IsFaithful known (in_text c.phase) (type_content text) c h (λ y. h)
event-IsFaithful known (read text) c k h = h
event-IsFaithful known (upload size name) c k h =
    where_shown-IsFaithful known (in_text c.phase) (λ c. (handle_file_upload size name c).1) c h
      (λ y. upload-IsFaithful known size name c h)
event-IsFaithful known parse c k h =
    where_shown-IsFaithful known (is_input c.phase) handle_parse c h
      (λ y. parse-IsFaithful known c h)
event-IsFaithful known use_recipe c k h =
    where_shown-IsFaithful known (is_preview c.phase) handle_use_recipe c h
      (λ y. use_recipe-IsFaithful known c y h)
event-IsFaithful known to_input c k (a, b, d) =
    where_shown-IsFaithful known (is_breakdown c.phase)
      (λ c. record c { phase = input; error_text = "" }) c (a, b, d)
      (λ y.
        let m = moved-IsFaithful known c.phase input c (is_past-breakdown c.phase y) refl b d in
        (a, m.0, m.1))
event-IsFaithful known to_preview c k (a, b, d) =
    where_shown-IsFaithful known (is_breakdown c.phase) (λ c. record c { phase = preview }) c
      (a, b, d)
      (λ y.
        let m = moved-IsFaithful known c.phase preview c (is_past-breakdown c.phase y) refl b d in
        (a, m.0, m.1))
event-IsFaithful known to_breakdown c k (a, b, d) =
    where_shown-IsFaithful known (is_preview c.phase) (λ c. record c { phase = breakdown }) c
      (a, b, d)
      (λ y.
        let m = moved-IsFaithful known c.phase breakdown c (is_past-preview c.phase y) refl b d in
        (a, m.0, m.1))
event-IsFaithful known (answer r) c k h =
    where_shown-IsFaithful known (is_awaiting c.awaited) (parse_answered r) c h
      (λ y. (h.0, k, refl))
event-IsFaithful known (failure msg) c k h =
    where_shown-IsFaithful known (is_awaiting c.awaited) (not_parsed msg) c h
      (λ y. (h.0, refl, refl))
event-IsFaithful known (dismiss i) c k h =
    where_shown-IsFaithful known (is_breakdown c.phase) (handle_dismiss_warning i) c h (λ y. h)
event-IsFaithful known (toggle name) c k h =
    where_shown-IsFaithful known (is_breakdown c.phase) (toggle_service name) c h (λ y. h)

recipe_in-answered :
    (known : List String) (e : ComposeEvent) (es : List ComposeEvent)
    → all_in known (answered_recipes (e ∷ es)) ≡ true
    → (recipe_in known e ≡ true) × (all_in known (answered_recipes es) ≡ true)
recipe_in-answered known (answer r) es h = (ground arith, ground arith)
recipe_in-answered known _ es h = (refl, h)

events-IsFaithful :
    (known : List String) (es : List ComposeEvent) (c : Compose)
    → all_in known (answered_recipes es) ≡ true
    → IsFaithful known c
    → IsFaithful known (compose_events es c)
events-IsFaithful known [] c k h = h
events-IsFaithful known (e ∷ es) c k h =
    let (a, b) = recipe_in-answered known e es k in
    events-IsFaithful known es (compose_event e c) b (event-IsFaithful known e c a h)

-- Whatever the user and the server do, in whatever order: every recipe that is handed over is one that the
-- server answered with, and the page says that it is reading a file exactly while it awaits an answer.
pub compose_events-handed :
    (es : List ComposeEvent)
    → let c = compose_events es first_compose in
      (all_in (answered_recipes es) c.handed ≡ true) × (is_parsing c.phase ≡ is_awaiting c.awaited)
compose_events-handed es =
    let known = answered_recipes es in
    let (a, b, c) =
      events-IsFaithful known es first_compose (all_in_self known) (refl, refl, refl) in
    (a, c)
