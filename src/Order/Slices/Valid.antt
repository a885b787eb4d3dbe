-- ===== src/Order/Slices/Valid.antt =====
-- What stays true of the order while its slices are edited.
use mozza.Prelude.{
  ◌||◌, string_eq, ◌==◌, trim, ℕ, zero, suc, ◌≤◌, ◌<◌, ◌≡◌, refl, Bool, List, [], ◌∷◌, map, String,
  arith, some, length, get_elem?, set, filter, All, string_eq, inl, inr, Option-cases, Bool-cases,
  ltb, true, length-append, All-append,
}
use mozza.Interview.{WizardState, ResourceSize, ServiceInterviewState}
use mozza.Order.Slices.{
  pos, negsuc, not_a_number, Entered, toggle_public, on_need, update_service, remove_at, forget,
  select, toggle_visibility, remove, need, add, port, replicas, domain, schedule, size,
  health_check, target, Action, perform, perform_all, name_at, has_image, shown, display_name,
  toggle_need, or_default, remove_slice, new_service, add_slice, choose_size, Entered, on_row,
  resource_size_map, select_slice, entered_replicas, pos,
}

-- Between 1 and 100 copies.
abbrev pub InRange : ServiceInterviewState → Type 0
InRange s = (1 ≤ s.replicas) × (s.replicas ≤ 100)

-- There is an active service, and each runs between 1 and 100 copies.
pub record IsValid (w : WizardState) : Type 0 where
  pub active : w.active_service_index < length w.services
  pub copies : All InRange w.services

length-set {ℓ} : {A : Type ℓ} (xs : List A) (i : ℕ) (v : A) → length (set xs i v) ≡ length xs
length-set [] i v = refl
length-set (x ∷ xs) zero v = refl
length-set (x ∷ xs) (suc i) v = omega (arith, length-set xs i v)

All-set :
    (xs : List ServiceInterviewState) (i : ℕ) (v : ServiceInterviewState)
    → InRange v
    → All InRange xs
    → All InRange (set xs i v)
All-set [] i v h k = tt
All-set (x ∷ xs) zero v h k = (h, k.1)
All-set (x ∷ xs) (suc i) v h k = (k.0, All-set xs i v h k.1)

get_elem?-InRange :
    (xs : List ServiceInterviewState) (i : ℕ) (v : ServiceInterviewState)
    → All InRange xs
    → get_elem? xs i ≡ some v
    → InRange v
get_elem?-InRange [] i v h e = cc
get_elem?-InRange (x ∷ xs) zero v h e = ground (arith, h.0)
get_elem?-InRange (x ∷ xs) (suc i) v h e = get_elem?-InRange xs i v h.1 e

-- A change of one service that keeps its number of copies in range.
pub update_service-IsValid :
    (i : ℕ) (f : ServiceInterviewState → ServiceInterviewState) (w : WizardState)
    → ((s : ServiceInterviewState) → InRange s → InRange (f s))
    → IsValid w
    → IsValid (update_service i f w)
update_service-IsValid i f w keep v = elim (Option-cases (get_elem? w.services i)) [
  | inl missing ↦ rw (missing, update_service) v
  | inr (s, found) ↦
      rw (found, update_service)
        (record {
          active = omega (arith, v.active, length-set {0} w.services i (f s));
          copies =
              All-set w.services i (f s) (keep s (get_elem?-InRange w.services i s v.copies found))
                v.copies;
        })
]

length-filter_le :
    (p : ServiceInterviewState → Bool) (xs : List ServiceInterviewState)
    → length (filter p xs) ≤ length xs
length-filter_le p [] = omega arith
length-filter_le p (x ∷ xs) = ground (arith, length-filter_le p xs)

All-remaining :
    (name : String) (i : ℕ) (xs : List ServiceInterviewState)
    → All InRange xs
    → All InRange (map (forget name) (remove_at i xs))
All-remaining name i [] h = tt
All-remaining name zero (x ∷ []) h = tt
All-remaining name zero (x ∷ y ∷ xs) h = (h.1.0, All-remaining name zero (y ∷ xs) h.1)
All-remaining name (suc i) (x ∷ xs) h = (h.0, All-remaining name i xs h.1)

All-or_default : (xs : List ServiceInterviewState) → All InRange xs → All InRange (or_default xs)
All-or_default [] h = (omega arith, tt)
All-or_default (x ∷ xs) h = h

or_default-pos : (xs : List ServiceInterviewState) → 0 < length (or_default xs)
or_default-pos [] = omega arith
or_default-pos (x ∷ xs) = omega arith

remove_slice-IsValid : (i : ℕ) (w : WizardState) → IsValid w → IsValid (remove_slice i w)
unfolding remove_slice
remove_slice-IsValid i w v = record {
  active =
      omega (arith, or_default-pos (map (forget (name_at w.services i)) (remove_at i w.services)));
  copies = All-or_default _ (All-remaining (name_at w.services i) i w.services v.copies);
}

new_service-InRange : (name image : String) → InRange (new_service name image)
unfolding new_service
new_service-InRange name image = ground arith

add_slice-IsValid :
    (name image : String) (w : WizardState) → IsValid w → IsValid (add_slice name image w)
unfolding add_slice
add_slice-IsValid name image w v = elim (Bool-cases (trim name == "" || trim image == "")) [
  | inl blank ↦ rw blank v
  | inr filled ↦ rw filled (record {
    active = omega (arith, length-append {0} w.services (new_service name image ∷ []));
    copies =
        All-append InRange w.services (new_service name image ∷ []) v.copies
          (new_service-InRange name image, tt);
  })
]

choose_size-IsValid : (s : ResourceSize) (w : WizardState) → IsValid w → IsValid (choose_size s w)
unfolding choose_size
choose_size-IsValid s w v = elim (Option-cases (get_elem? w.services 0)) [
  | inl missing ↦ rw (missing, choose_size) v
  | inr (svc, found) ↦
      rw (found, choose_size)
        (record {
          active = omega (
            arith,
            v.active,
            length-set {0} w.services 0 (record svc { resources = resource_size_map s }),
          );
          copies =
              All-set w.services 0 (record svc { resources = resource_size_map s })
                (get_elem?-InRange w.services 0 svc v.copies found) v.copies;
        })
]

on_row-IsValid :
    (i : ℕ) (f : WizardState → WizardState) (w : WizardState)
    → IsValid (f w)
    → IsValid w
    → IsValid (on_row i f w)
on_row-IsValid i f w changed v = elim (Bool-cases (ltb i (length (shown w)))) [
  | inl row ↦ rw (row, on_row) changed
  | inr no_row ↦ rw (no_row, on_row) v
]

entered_replicas-InRange : (e : Entered) → (1 ≤ entered_replicas e) × (entered_replicas e ≤ 100)
entered_replicas-InRange not_a_number = omega arith
entered_replicas-InRange (pos n) = omega arith
entered_replicas-InRange (negsuc n) = omega arith

toggle_need-IsValid :
    (i : ℕ) (other : String) (w : WizardState) → IsValid w → IsValid (toggle_need i other w)
unfolding toggle_need
toggle_need-IsValid i other w v = update_service-IsValid i _ w (λ s h. h) v

toggle_public-IsValid : (i : ℕ) (w : WizardState) → IsValid w → IsValid (toggle_public i w)
unfolding toggle_public
toggle_public-IsValid i w v = update_service-IsValid i _ w (λ s h. h) v

-- The guard of `on_need`, apart from the existence of the other slice.
on_need-IsValid : (i j : ℕ) (w : WizardState) → IsValid w → IsValid (on_need i j w)
unfolding on_need
on_need-IsValid i j w v = elim (Option-cases (get_elem? w.services j)) [
  | inl missing ↦ rw (missing, on_need) v
  | inr (other, found) ↦
      let name = display_name other in
      rw (found, on_need)
        (ground
          (arith, v, on_row-IsValid i (toggle_need i name) w (toggle_need-IsValid i name w v) v))
]

select_slice-IsValid :
    (i : ℕ) (w : WizardState)
    → IsValid w
    → ltb i (length (shown w)) ≡ true
    → IsValid (select_slice i w)
unfolding select_slice
select_slice-IsValid i w v h = record {
  active = ground (arith, length-filter_le has_image w.services);
  copies = v.copies;
}

pub perform-IsValid : (a : Action) (w : WizardState) → IsValid w → IsValid (perform a w)
unfolding perform
perform-IsValid (select i) w v = elim (Bool-cases (ltb i (length (shown w)))) [
  | inl row ↦ rw row (select_slice-IsValid i w v row)
  | inr no_row ↦ rw no_row v
]
perform-IsValid (toggle_visibility i) w v =
    on_row-IsValid i (toggle_public i) w (toggle_public-IsValid i w v) v
perform-IsValid (remove i) w v = on_row-IsValid i (remove_slice i) w (remove_slice-IsValid i w v) v
perform-IsValid (need i j) w v = on_need-IsValid i j w v
perform-IsValid (add name image) w v = add_slice-IsValid name image w v
perform-IsValid (port e) w v = update_service-IsValid 0 _ w (λ s h. h) v
perform-IsValid (replicas e) w v =
    update_service-IsValid 0 _ w (λ s h. entered_replicas-InRange e) v
perform-IsValid (domain d) w v = update_service-IsValid 0 _ w (λ s h. h) v
perform-IsValid (schedule cron) w v = update_service-IsValid 0 _ w (λ s h. h) v
perform-IsValid (size s) w v = choose_size-IsValid s w v
perform-IsValid (health_check on) w v = update_service-IsValid 0 _ w (λ s h. h) v
perform-IsValid (target t) w v = record { active = v.active; copies = v.copies }

-- In an order with an active service and between 1 and 100 copies of each service, this stays so
-- however the slices are edited.
pub perform_all-IsValid :
    (acts : List Action) (w : WizardState) → IsValid w → IsValid (perform_all acts w)
unfolding perform_all
perform_all-IsValid [] w v = v
perform_all-IsValid (a ∷ acts) w v = perform_all-IsValid acts (perform a w) (perform-IsValid a w v)
