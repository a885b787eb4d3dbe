-- ===== src/Order/Slices/Rows.antt =====
-- The rows of the order (OrderWizard.tsx) and the services that their handlers change.
use mozza.Prelude.{
  ℕ, zero, suc, ◌≡◌, refl, ap, ◌∙◌, true, false, List, [], ◌∷◌, map, String, arith, filter, All,
  string_eq, sym,
}
use mozza.Interview.{WizardState, ServiceInterviewState}
use mozza.Order.Slices.{
  has_image, shown, display_name, forget, remove_at, or_default, name_at, remove_slice,
}

filter-forget :
    (r : String) (xs : List ServiceInterviewState)
    → map display_name (filter has_image (map (forget r) xs))
      ≡ map display_name (filter has_image xs)
filter-forget r [] = refl
filter-forget r (x ∷ xs) = ground (arith, filter-forget r xs)

filter-or_default :
    (xs : List ServiceInterviewState)
    → map display_name (filter has_image (or_default xs)) ≡ map display_name (filter has_image xs)
filter-or_default [] = refl
filter-or_default (x ∷ xs) = refl

filter-All :
    (xs : List ServiceInterviewState) → All (λ s. has_image s ≡ true) xs → filter has_image xs ≡ xs
filter-All [] h = refl
filter-All (x ∷ xs) h = ground (arith, h.0, filter-All xs h.1)

All-remove_at :
    (i : ℕ) (xs : List ServiceInterviewState)
    → All (λ s. has_image s ≡ true) xs
    → All (λ s. has_image s ≡ true) (remove_at i xs)
All-remove_at i [] h = tt
All-remove_at zero (x ∷ xs) h = h.1
All-remove_at (suc i) (x ∷ xs) h = (h.0, All-remove_at i xs h.1)

map-remove_at :
    (i : ℕ) (xs : List ServiceInterviewState)
    → map display_name (remove_at i xs) ≡ remove_at i (map display_name xs)
map-remove_at i [] = refl
map-remove_at zero (x ∷ xs) = refl
map-remove_at (suc i) (x ∷ xs) = ap (λ (r : List String). display_name x ∷ r) (map-remove_at i xs)

shown-remove_slice :
    (i : ℕ) (w : WizardState)
    → map display_name (shown (remove_slice i w))
      ≡ map display_name (filter has_image (remove_at i w.services))
unfolding remove_slice
shown-remove_slice i w =
    filter-or_default (map (forget (name_at w.services i)) (remove_at i w.services))
    ∙ filter-forget (name_at w.services i) (remove_at i w.services)

-- Where every service has an image, removing row `i` removes that row and no other.
pub remove_slice-row :
    (i : ℕ) (w : WizardState)
    → All (λ s. has_image s ≡ true) w.services
    → map display_name (shown (remove_slice i w)) ≡ remove_at i (map display_name (shown w))
remove_slice-row i w h =
    shown-remove_slice i w
    ∙ (ap (map display_name) (filter-All (remove_at i w.services) (All-remove_at i w.services h))
        ∙ (map-remove_at i w.services
            ∙ ap (λ (xs : List ServiceInterviewState). remove_at i (map display_name xs))
                (sym (filter-All w.services h))))

-- Where the first service has no image, removing the first row leaves every row in place.
pub remove_slice-no_image :
    (s : ServiceInterviewState) (rest : List ServiceInterviewState) (w : WizardState)
    → w.services ≡ s ∷ rest
    → has_image s ≡ false
    → map display_name (shown (remove_slice zero w)) ≡ map display_name (shown w)
remove_slice-no_image s rest w e h =
    shown-remove_slice zero w ∙ ap (map display_name) (ground arith)
