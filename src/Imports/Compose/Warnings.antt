-- ===== src/Imports/Compose/Warnings.antt =====
-- The warnings that ui/src/components/deploy/ComposeImport.tsx shows, and those that were dismissed.
use mozza.Prelude.{
  ℕ, suc, ◌≡◌, refl, ap, ◌∙◌, Bool, true, false, not, ◌||◌, List, [], ◌∷◌, String, arith, nat_eq,
  ◌==◌, includes, includes-append, filter, any, nat_beq_iff,
}
use mozza.Imports.Compose.{
  Compose, ComposeWarning, ComposeEvent, compose_event, compose_events, handle_dismiss_warning,
  visible_warnings, numbered, typed, read, upload, parse, use_recipe, to_input, to_preview,
  to_breakdown, answer, failure, dismiss, toggle, handle_file_upload, handle_parse, in_text,
  is_input, is_breakdown, is_preview, is_awaiting, where_shown, input, preview, breakdown,
  type_content, file_read, parse_answered, not_parsed, handle_use_recipe, toggle_service,
}

dismissed-handle_dismiss_warning :
    (i j : ℕ) (c : Compose)
    → includes (handle_dismiss_warning i c).dismissed_warnings j
      ≡ (includes c.dismissed_warnings j || i == j)
unfolding handle_dismiss_warning
dismissed-handle_dismiss_warning i j c =
    ground (arith, includes-append c.dismissed_warnings (i ∷ []) j, nat_beq_iff i j)

filter_dismissed :
    (ds es : List ℕ) (i n : ℕ) (ws : List ComposeWarning)
    → ((j : ℕ) → includes es j ≡ (includes ds j || i == j))
    → filter (λ v. not (includes es v.0)) (numbered n ws)
      ≡ filter (λ v. not (v.0 == i)) (filter (λ v. not (includes ds v.0)) (numbered n ws))
filter_dismissed ds es i n [] h = refl
filter_dismissed ds es i n (w ∷ ws) h =
    ground (arith, h n, nat_beq_iff i n, filter_dismissed ds es i (suc n) ws h)

-- Dismissing a warning hides that one, and no other.
pub visible_warnings-handle_dismiss_warning :
    (i : ℕ) (c : Compose)
    → visible_warnings (handle_dismiss_warning i c)
      ≡ filter (λ v. not (v.0 == i)) (visible_warnings c)
unfolding handle_dismiss_warning
visible_warnings-handle_dismiss_warning i c =
    filter_dismissed c.dismissed_warnings (handle_dismiss_warning i c).dismissed_warnings i 0
      c.warnings (λ j. dismissed-handle_dismiss_warning i j c)

-- Whether a warning has been dismissed.
abbrev pub is_dismissed : ℕ → Compose → Bool
is_dismissed i c = includes c.dismissed_warnings i

where_shown-is_dismissed :
    (i : ℕ) (shown : Bool) (f : Compose → Compose) (c : Compose)
    → is_dismissed i c ≡ true
    → is_dismissed i (f c) ≡ true
    → is_dismissed i (where_shown shown f c) ≡ true
where_shown-is_dismissed i false f c h k = h
where_shown-is_dismissed i true f c h k = k

is_dismissed-upload :
    (i size : ℕ) (name : String) (c : Compose)
    → is_dismissed i (handle_file_upload size name c).1 ≡ is_dismissed i c
unfolding handle_file_upload
is_dismissed-upload i size name c = ground arith

is_dismissed-parse : (i : ℕ) (c : Compose) → is_dismissed i (handle_parse c) ≡ is_dismissed i c
unfolding handle_parse
is_dismissed-parse i c = ground arith

is_dismissed-event :
    (i : ℕ) (e : ComposeEvent) (c : Compose)
    → is_dismissed i c ≡ true
    → is_dismissed i (compose_event e c) ≡ true
unfolding compose_event type_content file_read parse_answered not_parsed handle_use_recipe
    toggle_service
is_dismissed-event i (typed text) c h =
    where_shown-is_dismissed i (in_text c.phase) (type_content text) c h h
is_dismissed-event i (read text) c h = h
is_dismissed-event i (upload size name) c h =
    where_shown-is_dismissed i (in_text c.phase) (λ c. (handle_file_upload size name c).1) c h
      (is_dismissed-upload i size name c ∙ h)
is_dismissed-event i parse c h =
    where_shown-is_dismissed i (is_input c.phase) handle_parse c h (is_dismissed-parse i c ∙ h)
is_dismissed-event i use_recipe c h =
    where_shown-is_dismissed i (is_preview c.phase) handle_use_recipe c h h
is_dismissed-event i to_input c h =
    where_shown-is_dismissed i (is_breakdown c.phase)
      (λ c. record c { phase = input; error_text = "" }) c h h
is_dismissed-event i to_preview c h =
    where_shown-is_dismissed i (is_breakdown c.phase) (λ c. record c { phase = preview }) c h h
is_dismissed-event i to_breakdown c h =
    where_shown-is_dismissed i (is_preview c.phase) (λ c. record c { phase = breakdown }) c h h
is_dismissed-event i (answer r) c h =
    where_shown-is_dismissed i (is_awaiting c.awaited) (parse_answered r) c h h
is_dismissed-event i (failure msg) c h =
    where_shown-is_dismissed i (is_awaiting c.awaited) (not_parsed msg) c h h
is_dismissed-event i (dismiss j) c h =
    where_shown-is_dismissed i (is_breakdown c.phase) (handle_dismiss_warning j) c h
      (dismissed-handle_dismiss_warning j i c ∙ ap (λ b. b || j == i) h)
is_dismissed-event i (toggle name) c h =
    where_shown-is_dismissed i (is_breakdown c.phase) (toggle_service name) c h h

is_dismissed-events :
    (i : ℕ) (es : List ComposeEvent) (c : Compose)
    → is_dismissed i c ≡ true
    → is_dismissed i (compose_events es c) ≡ true
is_dismissed-events i [] c h = h
is_dismissed-events i (e ∷ es) c h =
    is_dismissed-events i es (compose_event e c) (is_dismissed-event i e c h)

hidden :
    (ds : List ℕ) (i n : ℕ) (ws : List ComposeWarning)
    → includes ds i ≡ true
    → any (λ v. v.0 == i) (filter (λ v. not (includes ds v.0)) (numbered n ws)) ≡ false
hidden ds i n [] h = refl
hidden ds i n (w ∷ ws) h = ground (arith, hidden ds i (suc n) ws h, nat_beq_iff n i)

-- Once the warning at a place has been dismissed, no warning at that place is shown any more, whatever the
-- user does next: a warning of another file that stands there is hidden with it.
pub visible_warnings-is_dismissed :
    (i : ℕ) (es : List ComposeEvent) (c : Compose)
    → is_dismissed i c ≡ true
    → any (λ v. v.0 == i) (visible_warnings (compose_events es c)) ≡ false
visible_warnings-is_dismissed i es c h =
    let d : Compose = compose_events es c in
    hidden d.dismissed_warnings i 0 d.warnings (is_dismissed-events i es c h)
