-- ===== src/Order/Source/Laws.antt =====
-- What the recipe of `buildRecipeSource` in OrderWizard.tsx holds, and what it leaves out.
use mozza.Prelude.{
  ℕ, ◌≡◌, refl, ◌≢◌, Bool, true, false, ◌||◌, List, [], ◌∷◌, ◌++◌, String, arith, template, lower,
  codes, codes_beq, codes_beq_iff, lower-append, includes, includes-append, string_eq, nat_eq, inl,
  inr, Bool-cases,
}
use mozza.Interview.{WizardState, WizardTarget, ResourceSize, ServiceInterviewState}
use mozza.Interview.Combo.{or_else}
use mozza.Order.Slices.{display_name, set_domain, set_schedule, choose_size, set_target}
use mozza.Order.Source.{reserved, slice_name, shared_needs, needs_of, source_lines}

-- A reserved word with the suffix is none.
reserved-suffix : (s : String) → reserved s ≡ true → reserved (template (s ∷ "-svc" ∷ [])) ≡ false
unfolding reserved template lower
reserved-suffix s h = rw lower-append (go (lower s) h)
  where
    suffixed : List ℕ → Bool
    suffixed l =
        codes_beq (l ++ lower "-svc") (codes "app")
        || codes_beq (l ++ lower "-svc") (codes "images")
        || codes_beq (l ++ lower "-svc") (codes "namespace")
        || codes_beq (l ++ lower "-svc") (codes "crds")

    go :
        (l : List ℕ)
        → codes_beq l (codes "app")
            || codes_beq l (codes "images")
            || codes_beq l (codes "namespace")
            || codes_beq l (codes "crds")
          ≡ true
        → suffixed l ≡ false
    go l k = elim (Bool-cases (codes_beq l (codes "app"))) [
      | inl app ↦ rw ((codes_beq_iff l _).0 app) refl
      | inr not_app ↦ elim (Bool-cases (codes_beq l (codes "images"))) [
        | inl images ↦ rw ((codes_beq_iff l _).0 images) refl
        | inr not_images ↦ elim (Bool-cases (codes_beq l (codes "namespace"))) [
          | inl namespace ↦ rw ((codes_beq_iff l _).0 namespace) refl
          | inr not_namespace ↦ rw ((codes_beq_iff l (codes "crds")).0 (ground arith)) refl
        ]
      ]
    ]

-- No slice is named by a reserved word.
pub slice_name-not_reserved :
    (name : String) (svc : ServiceInterviewState) → reserved (slice_name name svc) ≡ false
unfolding slice_name
slice_name-not_reserved name svc =
    let svc_name = or_else svc.service_name (or_else svc.alias_name name) in
    elim (Bool-cases (reserved svc_name)) [
      | inl word ↦ rw word (reserved-suffix svc_name word)
      | inr free ↦ rw free free
    ]

-- A service whose name is a reserved word gets another name in the recipe, while a service that
-- waits for it still needs the old name.
pub needs_of-reserved :
    (name : String) (s t : ServiceInterviewState)
    → reserved (display_name s) ≡ true
    → includes t.needs_services (display_name s) ≡ true
    → (includes (needs_of name t) (display_name s) ≡ true) × (slice_name name s ≢ display_name s)
unfolding needs_of
needs_of-reserved name s t word h = (
  ground (arith, includes-append t.needs_services (shared_needs name t) (display_name s)),
  λ same. cc (rw same at (slice_name-not_reserved name s)),
)

-- The custom address, the schedule, the resource size and the place to deploy to that the user
-- chose leave no trace in the recipe.
pub customizations_ignored :
    (app : String) (w : WizardState) (d cron : String) (s : ResourceSize) (t : WizardTarget)
    → (source_lines app (set_domain d w) ≡ source_lines app w)
      × (source_lines app (set_schedule cron w) ≡ source_lines app w)
      × (source_lines app (choose_size s w) ≡ source_lines app w)
      × (source_lines app (set_target t w) ≡ source_lines app w)
unfolding set_domain set_schedule choose_size set_target source_lines
customizations_ignored app w d cron s t = go w.services refl
  where
    go :
        (svcs : List ServiceInterviewState)
        → w.services ≡ svcs
        → (source_lines app (set_domain d w) ≡ source_lines app w)
          × (source_lines app (set_schedule cron w) ≡ source_lines app w)
          × (source_lines app (choose_size s w) ≡ source_lines app w)
          × (source_lines app (set_target t w) ≡ source_lines app w)
    go [] e = rw e (refl, refl, refl, refl)
    go (x ∷ xs) e = rw e (refl, refl, refl, refl)
