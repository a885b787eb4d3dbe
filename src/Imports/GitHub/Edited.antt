-- ===== src/Imports/GitHub/Edited.antt =====
-- ui/src/components/deploy/GitHubImport.tsx: the text of the editor, and the recipe that is handed over.
use mozza.Prelude.{
  ◌≡◌, refl, sym, ap, ◌∙◌, Bool, true, false, not, ◌&&◌, ◌||◌, Option, none, some, List, [], ◌∷◌,
  ◌++◌, String, arith, string_eq, ◌==◌, Bool-cases, Option-cases, inl, inr, if◌then◌else◌, trim,
  eq_refl, eq_iff,
}
use mozza.Recipe.{given}
use mozza.Imports.GitHub.{
  first_github, GitHub, GitHubEvent, github_event, github_events, type_url, type_token, type_source,
  toggle_token, scan, edit, check, use_recipe, scan_answer, scan_failure, check_answer, ScanResult,
  source_in, handle_scan, scanned, not_scanned, check_image, image_checked, handle_use_recipe,
  shows, is_generated, is_editable, needs_image, is_scanning, ScanGenerated, source_of, is_results,
  is_valid_url, is_valid_url,
}

-- Until the user edits it, the text of the editor is the recipe that is shown, where there is one.
abbrev in_step : Bool → String → String → Bool
in_step editing source edited = editing || not (given source) || edited == source

abbrev pub IsInStep : GitHub → Type 0
IsInStep g = in_step g.editing (source_in g.scan_result) g.edited_source ≡ true

in_step-taken :
    (editing : Bool) (source edited : String)
    → in_step editing source (if given source then source else edited) ≡ true
in_step-taken editing source edited = ground (arith, eq_refl source)

scan-IsInStep : (g : GitHub) → IsInStep g → IsInStep (handle_scan g)
unfolding handle_scan
scan-IsInStep g h = elim (Bool-cases (is_valid_url g.repo_url)) [
  | inl y ↦ rw y refl
  | inr n ↦ rw n h
]

use_recipe-IsInStep : (g : GitHub) → IsInStep g → IsInStep (handle_use_recipe g)
unfolding handle_use_recipe
use_recipe-IsInStep g h =
    elim (Bool-cases (given (if g.editing then g.edited_source else source_in g.scan_result))) [
      | inl y ↦ rw y h
      | inr n ↦ rw n h
    ]

if-IsInStep :
    (b : Bool) (g k : GitHub) → IsInStep g → (b ≡ true → IsInStep k) → IsInStep (if b then k else g)
if-IsInStep false g k h m = h
if-IsInStep true g k h m = m refl

editing-IsInStep : (g : GitHub) → g.editing ≡ true → IsInStep g
editing-IsInStep g h = ground arith

event-IsInStep : (e : GitHubEvent) (g : GitHub) → IsInStep g → IsInStep (github_event e g)
unfolding github_event scanned not_scanned check_image image_checked
event-IsInStep (type_url url) g h = h
event-IsInStep (type_token t) g h = if-IsInStep g.show_token g (record g { token = t }) h (λ y. h)
event-IsInStep toggle_token g h = h
event-IsInStep (type_source s) g h =
    if-IsInStep (shows is_generated g && g.editing) g (record g { edited_source = s }) h
      (λ y. editing-IsInStep (record g { edited_source = s }) (ground (arith, y)))
event-IsInStep scan g h = elim (Bool-cases (is_scanning g.scan_state)) [
  | inl y ↦ rw y h
  | inr n ↦ rw n (scan-IsInStep g h)
]
event-IsInStep edit g h =
    if-IsInStep (shows is_editable g && not g.editing) g (record g { editing = true }) h (λ y. refl)
event-IsInStep check g h =
    if-IsInStep (shows needs_image g && not g.checking_ghcr) g (check_image g) h (λ y. h)
event-IsInStep use_recipe g h =
    if-IsInStep (shows is_generated g && not (g.editing && not (given (trim g.edited_source)))) g
      (handle_use_recipe g) h (λ y. use_recipe-IsInStep g h)
event-IsInStep (scan_answer r) g h =
    if-IsInStep (is_scanning g.scan_state) g (scanned r g) h
      (λ y. in_step-taken g.editing (source_in (some r)) g.edited_source)
event-IsInStep (scan_failure raw) g h =
    if-IsInStep (is_scanning g.scan_state) g (not_scanned raw g) h (λ y. h)
event-IsInStep (check_answer none) g h =
    if-IsInStep g.checking_ghcr g (image_checked none g) h (λ y. h)
event-IsInStep (check_answer (some r)) g h =
    if-IsInStep g.checking_ghcr g (image_checked (some r) g) h
      (λ y. in_step-taken g.editing (source_in (some r)) g.edited_source)

events-IsInStep : (es : List GitHubEvent) (g : GitHub) → IsInStep g → IsInStep (github_events es g)
events-IsInStep [] g h = h
events-IsInStep (e ∷ es) g h = events-IsInStep es (github_event e g) (event-IsInStep e g h)

empty-given : (s : String) → given s ≡ false → s ≡ ""
empty-given s h = ground (arith, eq_iff s "")

given-trim : (s : String) → given (trim s) ≡ true → given s ≡ true
unfolding mozza.Prelude.trim
given-trim s h = elim (Bool-cases (given s)) [
  | inl y ↦ y
  | inr n ↦ n ∙ sym (ap (λ t. given (trim t)) (empty-given s n)) ∙ h
]

in_step-edited :
    (source edited : String)
    → in_step false source edited ≡ true
    → given source ≡ true
    → edited ≡ source
in_step-edited source edited h k = ground (arith, eq_iff edited source)

is_generated-is_editable : (g : GitHub) → shows is_editable g ≡ true → shows is_generated g ≡ true
is_generated-is_editable g h = ground arith

-- What using the recipe hands over, where it is shown.
github_event-use_recipe :
    (g : GitHub) (s : String)
    → shows is_generated g ≡ true
    → (g.editing && not (given (trim g.edited_source))) ≡ false
    → (if g.editing then g.edited_source else source_in g.scan_result) ≡ s
    → given s ≡ true
    → (github_event use_recipe g).handed ≡ g.handed ++ s ∷ []
unfolding github_event handle_use_recipe
github_event-use_recipe g s a b c d = rw (a, b, c, d) refl

github_event-edit :
    (g : GitHub)
    → shows is_editable g ≡ true
    → g.editing ≡ false
    → github_event edit g ≡ record g { editing = true }
unfolding github_event
github_event-edit g a b = ground arith

edit-use_from :
    (g : GitHub) (e : g.edited_source ≡ source_in g.scan_result)
    → shows is_editable g ≡ true
    → g.editing ≡ false
    → given (trim (source_in g.scan_result)) ≡ true
    → (github_events (edit ∷ use_recipe ∷ []) g).handed ≡ (github_event use_recipe g).handed
edit-use_from g e a b c =
    let s = source_in g.scan_result in
    let shown : shows is_generated g ≡ true = is_generated-is_editable g a in
    let full : given s ≡ true = given-trim s c in
    let edited : GitHub = record g { editing = true } in
    ap (λ k. (github_event use_recipe k).handed) (github_event-edit g a b)
    ∙ github_event-use_recipe edited s shown (ap (λ t. not (given (trim t))) e ∙ ap not c) e full
    ∙ sym (
        github_event-use_recipe g s shown (ap (λ v. v && not (given (trim g.edited_source))) b)
          (ap (λ v. if v then g.edited_source else s) b) full)

-- After any events, a recipe that is shown, can be edited, is not being edited and is not blank is handed
-- over alike with and without opening the editor on it.
pub edit-use_recipe :
    (es : List GitHubEvent)
    → shows is_editable (github_events es first_github) ≡ true
    → (github_events es first_github).editing ≡ false
    → given (trim (source_in (github_events es first_github).scan_result)) ≡ true
    → (github_events (edit ∷ use_recipe ∷ []) (github_events es first_github)).handed
      ≡ (github_event use_recipe (github_events es first_github)).handed
edit-use_recipe es a b c =
    let g : GitHub = github_events es first_github in
    let s = source_in g.scan_result in
    let h : IsInStep g = events-IsInStep es first_github refl in
    edit-use_from g
      (in_step-edited s g.edited_source (ap (λ v. in_step v s g.edited_source) (sym b) ∙ h)
        (given-trim s c))
      a b c

github_event-check_answer :
    (r : ScanResult) (g : GitHub)
    → g.checking_ghcr ≡ true
    → github_event (check_answer (some r)) g ≡ image_checked (some r) g
unfolding github_event
github_event-check_answer r g a = ground arith

is_generated-given : (o : Option ScanGenerated) → given (source_of o) ≡ true → is_generated o ≡ true
is_generated-given none h = h
is_generated-given (some x) h = refl

is_results-shows : (g : GitHub) → shows is_generated g ≡ true → is_results g.scan_state ≡ true
is_results-shows g h = ground arith

-- While the user edits the recipe and a prebuilt image is asked for, an answer with a recipe that is not
-- blank replaces what was typed: what is handed over then is that recipe, whatever the user typed.
pub check_answer-use_recipe :
    (r : ScanResult) (g : GitHub)
    → g.checking_ghcr ≡ true
    → shows is_generated g ≡ true
    → g.editing ≡ true
    → given (trim (source_in (some r))) ≡ true
    → (github_events (check_answer (some r) ∷ use_recipe ∷ []) g).handed
      ≡ g.handed ++ source_in (some r) ∷ []
unfolding image_checked
check_answer-use_recipe r g a b c d =
    let s = source_in (some r) in
    let full : given s ≡ true = given-trim s d in
    let k : GitHub = image_checked (some r) g in
    let e : k.edited_source ≡ s = ap (λ v. if v then s else g.edited_source) full in
    let shown : shows is_generated k ≡ true =
      ap (λ v. v && is_generated r.generated) (is_results-shows g b)
      ∙ is_generated-given r.generated full in
    ap (λ q. (github_event use_recipe q).handed) (github_event-check_answer r g a)
    ∙ github_event-use_recipe k s shown
        (ap (λ v. v && not (given (trim k.edited_source))) c
          ∙ ap (λ t. not (given (trim t))) e
          ∙ ap not d)
        (ap (λ v. if v then k.edited_source else s) c ∙ e) full
