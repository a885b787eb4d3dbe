-- ===== src/Order/Source/Closed.antt =====
-- The needs of the recipe that buildRecipeSource (OrderWizard.tsx) writes of edited slices.
use mozza.Prelude.{
  ◌≡◌, refl, Bool, true, not, ◌&&◌, List, [], ◌∷◌, String, arith, eq_iff, eq_refl, template,
  includes, includes-append, All, All-append, All-mono, ◌==◌, string_eq, nat_eq, length, Bool-cases,
  inl, inr,
}
use mozza.Interview.{WizardState, ServiceInterviewState}
use mozza.Interview.Combo.{or_else}
use mozza.Order.Slices.{display_name, Action, perform_all}
use mozza.Order.Slices.Needs.{named, NeedsExist}
use mozza.Order.Slices.Dependencies.{perform_all-NeedsExist}
use mozza.Order.Source.{
  reserved, slice_name, service_block, service_blocks, source_lines, needs_of, shared_needs,
  shared_blocks, collect_shared, nothing_shared, is_database_only,
}
use mozza.Order.Source.Dependencies.{HasSlice, shared_needs-HasSlice}

-- The service has a name, and no reserved word for one.
abbrev pub is_well_named : ServiceInterviewState → Bool
is_well_named s = not (display_name s == "") && not (reserved (display_name s))

-- The services are written into the recipe.
abbrev pub lists_services : WizardState → Bool
lists_services w = not (length w.services == 1 && is_database_only w.selected_combo)

slice_name-is_well_named :
    (name : String) (s : ServiceInterviewState)
    → is_well_named s ≡ true
    → slice_name name s ≡ display_name s
unfolding slice_name
slice_name-is_well_named name s h = ground arith

-- The block of a service begins with its name.
service_block-named :
    (name : String) (s : ServiceInterviewState)
    → is_well_named s ≡ true
    → includes (service_block name s) (template (display_name s ∷ ":" ∷ [])) ≡ true
unfolding service_block
service_block-named name s h = rw (slice_name-is_well_named name s h, eq_refl) refl

service_blocks-named :
    (name n : String) (svcs : List ServiceInterviewState)
    → All (λ s. is_well_named s ≡ true) svcs
    → named svcs n ≡ true
    → includes (service_blocks name svcs) (template (n ∷ ":" ∷ [])) ≡ true
unfolding service_blocks
service_blocks-named name n [] ok h = ground arith
service_blocks-named name n (s ∷ svcs) (here, later) h = elim (Bool-cases (display_name s == n)) [
  | inl same ↦
      let is_n : display_name s ≡ n = (eq_iff (display_name s) n).0 same in
      rw includes-append (ground (arith, rw is_n at (service_block-named name s here)))
  | inr other ↦
      rw includes-append (ground (arith, service_blocks-named name n svcs later (ground arith)))
]

source_lines-named :
    (app n : String) (w : WizardState)
    → lists_services w ≡ true
    → All (λ s. is_well_named s ≡ true) w.services
    → named w.services n ≡ true
    → HasSlice app w n
unfolding source_lines
source_lines-named app n w listed ok h =
    let name = or_else app "app" in
    ground (
      arith,
      service_blocks-named name n w.services ok h,
      includes-append (service_blocks name w.services)
          (shared_blocks name (collect_shared w.services nothing_shared)) (template (n ∷ ":" ∷ [])),
    )

-- Where the services wait only for each other, and each has a name that is no reserved word, then
-- however the slices are edited to services that are so named and written into the recipe, every
-- need of the recipe is a slice of it: of a service, of a database or of a cache.
pub needs_of-HasSlice :
    (app : String) (acts : List Action) (w : WizardState)
    → NeedsExist w
    → lists_services (perform_all acts w) ≡ true
    → All (λ s. is_well_named s ≡ true) (perform_all acts w).services
    → All
        (λ s. All (HasSlice app (perform_all acts w)) (needs_of (or_else app "app") s))
        (perform_all acts w).services
unfolding needs_of
needs_of-HasSlice app acts w h listed ok =
    let v = perform_all acts w in
    join v.services (perform_all-NeedsExist acts w h) (shared_needs-HasSlice app v)
  where
    join :
        (svcs : List ServiceInterviewState)
        → All (λ s. All (λ n. named (perform_all acts w).services n ≡ true) s.needs_services) svcs
        → All
            (λ s. All (HasSlice app (perform_all acts w)) (shared_needs (or_else app "app") s))
            svcs
        → All (λ s. All (HasSlice app (perform_all acts w)) (needs_of (or_else app "app") s)) svcs
    join [] own shared = tt
    join (s ∷ svcs) own shared = (
      All-append (HasSlice app (perform_all acts w)) _ _
          (All-mono s.needs_services (λ n. source_lines-named app n (perform_all acts w) listed ok)
            own.0)
          shared.0,
      join svcs own.1 shared.1,
    )
