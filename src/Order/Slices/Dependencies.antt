-- ===== src/Order/Slices/Dependencies.antt =====
-- The needs of the services under the handlers of the second step of OrderWizard.tsx.
use mathlib.Core.Path.{subst}
use mozza.Prelude.{
  sym, ℕ, zero, suc, ◌≡◌, refl, Bool, true, false, ◌||◌, some, List, [], ◌∷◌, ◌++◌, String, arith,
  eq_refl, length, get_elem?, All, All-append, ltb, ◌==◌, string_eq, nat_eq, inl, inr, Option-cases,
  Bool-cases, if◌then◌else◌, trim,
}
use mozza.Interview.{WizardState, ServiceInterviewState, ResourceSize}
use mozza.Interview.Combo.{resource_size_map}
use mozza.Order.Slices.{
  toggle_public, on_need, on_row, update_service, select, toggle_visibility, remove, need, add,
  port, replicas, domain, schedule, size, health_check, target, Action, perform, perform_all, shown,
  display_name, toggle_need, remove_slice, new_service, add_slice, choose_size, select_slice,
}
use mozza.Order.Slices.Needs.{
  named, Closed, NeedsExist, named-append, Closed-mono, All-filter, update_service-NeedsExist,
  remove_slice-NeedsExist,
}

-- A change that touches neither a name nor a need.
plain-NeedsExist :
    (f : ServiceInterviewState → ServiceInterviewState) (i : ℕ) (w : WizardState)
    → ((s : ServiceInterviewState) → display_name (f s) ≡ display_name s)
    → ((s : ServiceInterviewState) → (f s).needs_services ≡ s.needs_services)
    → NeedsExist w
    → NeedsExist (update_service i f w)
plain-NeedsExist f i w name needs h = update_service-NeedsExist f i w name (λ s k. rw (needs s) k) h

on_row-NeedsExist :
    (i : ℕ) (f : WizardState → WizardState) (w : WizardState)
    → NeedsExist (f w)
    → NeedsExist w
    → NeedsExist (on_row i f w)
on_row-NeedsExist i f w changed h = elim (Bool-cases (ltb i (length (shown w)))) [
  | inl row ↦ rw (row, on_row) changed
  | inr no_row ↦ rw (no_row, on_row) h
]

named-get_elem? :
    (xs : List ServiceInterviewState) (j : ℕ) (s : ServiceInterviewState)
    → get_elem? xs j ≡ some s
    → named xs (display_name s) ≡ true
named-get_elem? [] j s e = cc
named-get_elem? (x ∷ xs) zero s e = ground (arith, eq_refl (display_name s))
named-get_elem? (x ∷ xs) (suc j) s e = ground (arith, named-get_elem? xs j s)

named_if :
    (all : List ServiceInterviewState) (b : Bool) (xs ys : List String)
    → All (λ n. named all n ≡ true) xs
    → All (λ n. named all n ≡ true) ys
    → All (λ n. named all n ≡ true) (if b then xs else ys)
named_if all true xs ys h k = h
named_if all false xs ys h k = k

toggle_need-NeedsExist :
    (i : ℕ) (name : String) (w : WizardState)
    → named w.services name ≡ true
    → NeedsExist w
    → NeedsExist (toggle_need i name w)
unfolding toggle_need
toggle_need-NeedsExist i name w there h =
    update_service-NeedsExist _ i w (λ s. refl)
      (λ s k.
        named_if w.services _ _ _ (All-filter w.services name s.needs_services k)
          (All-append (λ n. named w.services n ≡ true) s.needs_services (name ∷ []) k (there, tt)))
      h

new_service_needs : (name image : String) → (new_service name image).needs_services ≡ []
unfolding new_service
new_service_needs name image = ground arith

add_slice-NeedsExist :
    (name image : String) (w : WizardState) → NeedsExist w → NeedsExist (add_slice name image w)
unfolding add_slice
add_slice-NeedsExist name image w h = elim (Bool-cases (trim name == "" || trim image == "")) [
  | inl blank ↦ rw blank h
  | inr filled ↦ rw filled (
      All-append _ w.services (new_service name image ∷ [])
        (Closed-mono w.services (w.services ++ new_service name image ∷ []) w.services
          (λ n e. ground (arith, named-append w.services (new_service name image ∷ []) n)) h)
        (rw (new_service_needs name image) tt, tt))
]

choose_size-services :
    (chosen : ResourceSize) (w : WizardState)
    → (choose_size chosen w).services
      ≡ (update_service 0 (λ s. record s { resources = resource_size_map chosen }) w).services
unfolding choose_size
choose_size-services chosen w = ground arith

choose_size-NeedsExist :
    (chosen : ResourceSize) (w : WizardState) → NeedsExist w → NeedsExist (choose_size chosen w)
choose_size-NeedsExist chosen w h =
    subst (λ xs. Closed xs xs) (sym (choose_size-services chosen w))
      (plain-NeedsExist (λ s. record s { resources = resource_size_map chosen }) 0 w (λ s. refl)
        (λ s. refl) h)

toggle_public-NeedsExist : (i : ℕ) (w : WizardState) → NeedsExist w → NeedsExist (toggle_public i w)
unfolding toggle_public
toggle_public-NeedsExist i w h = plain-NeedsExist _ i w (λ s. refl) (λ s. refl) h

select_slice-NeedsExist : (i : ℕ) (w : WizardState) → NeedsExist w → NeedsExist (select_slice i w)
unfolding select_slice
select_slice-NeedsExist i w h = h

unless-NeedsExist :
    (b : Bool) (w v : WizardState) → NeedsExist w → NeedsExist v → NeedsExist (if b then w else v)
unless-NeedsExist true w v h k = h
unless-NeedsExist false w v h k = k

on_need-NeedsExist : (i j : ℕ) (w : WizardState) → NeedsExist w → NeedsExist (on_need i j w)
unfolding on_need
on_need-NeedsExist i j w h = elim (Option-cases (get_elem? w.services j)) [
  | inl missing ↦ rw (missing, on_need) h
  | inr (other, found) ↦
      let name = display_name other in
      let there = named-get_elem? w.services j other found in
      rw (found, on_need)
        (unless-NeedsExist _ w (on_row i (toggle_need i name) w) h
          (on_row-NeedsExist i (toggle_need i name) w (toggle_need-NeedsExist i name w there h) h))
]

perform-NeedsExist : (a : Action) (w : WizardState) → NeedsExist w → NeedsExist (perform a w)
unfolding perform
perform-NeedsExist (select i) w h =
    on_row-NeedsExist i (select_slice i) w (select_slice-NeedsExist i w h) h
perform-NeedsExist (toggle_visibility i) w h =
    on_row-NeedsExist i (toggle_public i) w (toggle_public-NeedsExist i w h) h
perform-NeedsExist (remove i) w h =
    on_row-NeedsExist i (remove_slice i) w (remove_slice-NeedsExist i w h) h
perform-NeedsExist (need i j) w h = on_need-NeedsExist i j w h
perform-NeedsExist (add name image) w h = add_slice-NeedsExist name image w h
perform-NeedsExist (port e) w h = plain-NeedsExist _ 0 w (λ s. refl) (λ s. refl) h
perform-NeedsExist (replicas e) w h = plain-NeedsExist _ 0 w (λ s. refl) (λ s. refl) h
perform-NeedsExist (domain d) w h = plain-NeedsExist _ 0 w (λ s. refl) (λ s. refl) h
perform-NeedsExist (schedule cron) w h = plain-NeedsExist _ 0 w (λ s. refl) (λ s. refl) h
perform-NeedsExist (size s) w h = choose_size-NeedsExist s w h
perform-NeedsExist (health_check on) w h = plain-NeedsExist _ 0 w (λ s. refl) (λ s. refl) h
perform-NeedsExist (target t) w h = h

-- In an order in which a service waits only for services of the order, this stays so however the
-- slices are edited.
pub perform_all-NeedsExist :
    (acts : List Action) (w : WizardState) → NeedsExist w → NeedsExist (perform_all acts w)
unfolding perform_all
perform_all-NeedsExist [] w h = h
perform_all-NeedsExist (a ∷ acts) w h =
    perform_all-NeedsExist acts (perform a w) (perform-NeedsExist a w h)
