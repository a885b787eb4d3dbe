-- ===== src/Guided/Kept.antt =====
-- The edits of the services of GuidedWizard.tsx, and the services after the first.
use mozza.Prelude.{
  ℕ, zero, suc, ◌-◌, ◌≡◌, refl, inl, inr, Bool, true, not, ◌&&◌, List, [], ◌∷◌, ◌++◌, String, arith,
  all, length, ltb, ◌==◌, string_eq, find_index, Option-cases, Bool-cases,
}
use mozza.Order.Slices.{remove_at}
use mozza.Guided.{
  ServiceType, web_type, api_type, worker_type, of_kind, reverse, remove_extra_by_kind,
  GuidedService, update_at, Change, change_services, add_service, remove_service, rename, image_of,
  port_of, kind_of, Extra, add_db, remove_db, add_cache, remove_cache, pick_extra_db, add_worker,
  remove_worker, add_scheduled, remove_scheduled, change_extras,
}

abbrev pub others {ℓ} : {A : Type ℓ} → List A → List A
others [] = []
others (x ∷ xs) = xs

module _ {ℓ} {A : Type ℓ} (p : A → Bool) where
  pub all-remove_at : (i : ℕ) (xs : List A) → all p xs ≡ true → all p (remove_at i xs) ≡ true
  all-remove_at i [] h = refl
  all-remove_at zero (x ∷ xs) h = ground arith
  all-remove_at (suc i) (x ∷ xs) h = ground (arith, all-remove_at i xs)

  pub all_snoc : (xs : List A) (y : A) → all p xs ≡ true → p y ≡ true → all p (xs ++ y ∷ []) ≡ true
  all_snoc [] y h k = ground arith
  all_snoc (x ∷ xs) y h k = ground (arith, all_snoc xs y)

  pub all-update_at :
      (i : ℕ) (f : A → A) (xs : List A)
      → ((x : A) → p x ≡ true → p (f x) ≡ true)
      → all p xs ≡ true
      → all p (update_at i f xs) ≡ true
  all-update_at i f [] keep h = refl
  all-update_at zero f (x ∷ xs) keep h = ground (arith, keep x)
  all-update_at (suc i) f (x ∷ xs) keep h = ground (arith, all-update_at i f xs keep)

  pub others-remove_at :
      (i : ℕ) (xs : List A) → all p (others xs) ≡ true → all p (others (remove_at i xs)) ≡ true
  others-remove_at i [] h = refl
  others-remove_at zero (x ∷ []) h = refl
  others-remove_at zero (x ∷ y ∷ ys) h = ground arith
  others-remove_at (suc i) (x ∷ xs) h = all-remove_at i xs h

  pub others_snoc :
      (xs : List A) (y : A)
      → all p (others xs) ≡ true
      → p y ≡ true
      → all p (others (xs ++ y ∷ [])) ≡ true
  others_snoc [] y h k = refl
  others_snoc (x ∷ xs) y h k = all_snoc xs y h k

  pub others-update_at :
      (i : ℕ) (f : A → A) (xs : List A)
      → ((x : A) → p x ≡ true → p (f x) ≡ true)
      → all p (others xs) ≡ true
      → all p (others (update_at i f xs)) ≡ true
  others-update_at i f [] keep h = refl
  others-update_at zero f (x ∷ xs) keep h = h
  others-update_at (suc i) f (x ∷ xs) keep h = all-update_at i f xs keep h

abbrev pub is_plain : GuidedService → Bool
is_plain s = not s.needs_db && not s.needs_cache

abbrev pub is_service : GuidedService → Bool
is_service s = not (s.kind == "database")

pub plain-change_services :
    (c : Change) (svcs : List GuidedService)
    → all is_plain (others svcs) ≡ true
    → all is_plain (others (change_services c svcs)) ≡ true
unfolding change_services
plain-change_services add_service svcs h = elim (Bool-cases (ltb (length svcs) 10)) [
  | inl few ↦ rw (few, change_services) (others_snoc is_plain svcs _ h refl)
  | inr many ↦ rw (many, change_services) h
]
plain-change_services (remove_service i) svcs h = ground (arith, others-remove_at is_plain i svcs h)
plain-change_services (rename i v) svcs h = others-update_at is_plain i _ svcs (λ s k. k) h
plain-change_services (image_of i v) svcs h = others-update_at is_plain i _ svcs (λ s k. k) h
plain-change_services (port_of i v) svcs h =
    others-update_at is_plain i _ svcs (λ s k. ground arith) h
plain-change_services (kind_of i t) svcs h = others-update_at is_plain i _ svcs (λ s k. k) h

of_kind-is_service : (t : ServiceType) (s : GuidedService) → is_service (of_kind t s) ≡ true
of_kind-is_service web_type s = refl
of_kind-is_service api_type s = refl
of_kind-is_service worker_type s = refl

pub kinds-change_services :
    (c : Change) (svcs : List GuidedService)
    → all is_service svcs ≡ true
    → all is_service (change_services c svcs) ≡ true
unfolding change_services
kinds-change_services add_service svcs h = elim (Bool-cases (ltb (length svcs) 10)) [
  | inl few ↦ rw (few, change_services) (all_snoc is_service svcs _ h (ground arith))
  | inr many ↦ rw (many, change_services) h
]
kinds-change_services (remove_service i) svcs h = ground (arith, all-remove_at is_service i svcs h)
kinds-change_services (rename i v) svcs h = all-update_at is_service i _ svcs (λ s k. k) h
kinds-change_services (image_of i v) svcs h = all-update_at is_service i _ svcs (λ s k. k) h
kinds-change_services (port_of i v) svcs h =
    all-update_at is_service i _ svcs (λ s k. ground arith) h
kinds-change_services (kind_of i t) svcs h =
    all-update_at is_service i _ svcs (λ s k. of_kind-is_service t s) h

others-update_first :
    (f : GuidedService → GuidedService) (svcs : List GuidedService)
    → all is_plain (others svcs) ≡ true
    → all is_plain (others (update_at 0 f svcs)) ≡ true
others-update_first f [] h = h
others-update_first f (s ∷ ss) h = h

plain-remove :
    (kind : String) (svcs : List GuidedService)
    → all is_plain (others svcs) ≡ true
    → all is_plain (others (remove_extra_by_kind kind svcs)) ≡ true
plain-remove kind svcs h = elim (Option-cases (find_index (λ s. s.kind == kind) (reverse svcs))) [
  | inl missing ↦ rw (missing, remove_extra_by_kind) h
  | inr (i, found) ↦
      rw (found, remove_extra_by_kind) (others-remove_at is_plain (length svcs - 1 - i) svcs h)
]

kinds-remove :
    (kind : String) (svcs : List GuidedService)
    → all is_service svcs ≡ true
    → all is_service (remove_extra_by_kind kind svcs) ≡ true
kinds-remove kind svcs h = elim (Option-cases (find_index (λ s. s.kind == kind) (reverse svcs))) [
  | inl missing ↦ rw (missing, remove_extra_by_kind) h
  | inr (i, found) ↦
      rw (found, remove_extra_by_kind) (all-remove_at is_service (length svcs - 1 - i) svcs h)
]

pub plain-change_extras :
    (e : Extra) (svcs : List GuidedService)
    → all is_plain (others svcs) ≡ true
    → all is_plain (others (change_extras e svcs)) ≡ true
unfolding change_extras
plain-change_extras add_db svcs h = others-update_first _ svcs h
plain-change_extras remove_db svcs h = others-update_first _ svcs h
plain-change_extras (pick_extra_db id) svcs h = others-update_first _ svcs h
plain-change_extras add_cache svcs h = others-update_first _ svcs h
plain-change_extras remove_cache svcs h = others-update_first _ svcs h
plain-change_extras add_worker svcs h = others_snoc is_plain svcs _ h refl
plain-change_extras add_scheduled svcs h = others_snoc is_plain svcs _ h refl
plain-change_extras remove_worker svcs h = plain-remove "worker" svcs h
plain-change_extras remove_scheduled svcs h = plain-remove "scheduled" svcs h

pub kinds-change_extras :
    (e : Extra) (svcs : List GuidedService)
    → all is_service svcs ≡ true
    → all is_service (change_extras e svcs) ≡ true
unfolding change_extras
kinds-change_extras add_db svcs h = all-update_at is_service 0 _ svcs (λ s k. k) h
kinds-change_extras remove_db svcs h = all-update_at is_service 0 _ svcs (λ s k. k) h
kinds-change_extras (pick_extra_db id) svcs h = all-update_at is_service 0 _ svcs (λ s k. k) h
kinds-change_extras add_cache svcs h = all-update_at is_service 0 _ svcs (λ s k. k) h
kinds-change_extras remove_cache svcs h = all-update_at is_service 0 _ svcs (λ s k. k) h
kinds-change_extras add_worker svcs h = all_snoc is_service svcs _ h refl
kinds-change_extras add_scheduled svcs h = all_snoc is_service svcs _ h refl
kinds-change_extras remove_worker svcs h = kinds-remove "worker" svcs h
kinds-change_extras remove_scheduled svcs h = kinds-remove "scheduled" svcs h
