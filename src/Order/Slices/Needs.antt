-- ===== src/Order/Slices/Needs.antt =====
-- The slices that a service waits for stay in the order while it is edited.
use mozza.Prelude.{
  ℕ, zero, suc, ◌≡◌, refl, Bool, true, false, not, ◌||◌, some, List, [], ◌∷◌, ◌++◌, map, String,
  arith, eq_iff, get_elem?, set, filter, any, All, All-mono, ◌==◌, string_eq, nat_eq, inl, inr,
  Option-cases, Bool-cases,
}
use mozza.Interview.{WizardState, ServiceInterviewState}
use mozza.Order.Slices.{
  update_service, remove_at, forget, name_at, display_name, or_default, remove_slice,
}

-- A service of this name is in the list.
abbrev pub named : List ServiceInterviewState → String → Bool
named svcs n = any (λ s. display_name s == n) svcs

-- Everything that a service waits for is the name of a service.
abbrev pub Closed : List ServiceInterviewState → List ServiceInterviewState → Type 0
Closed all svcs = All (λ s. All (λ n. named all n ≡ true) s.needs_services) svcs

abbrev pub NeedsExist : WizardState → Type 0
NeedsExist w = Closed w.services w.services

pub named-append :
    (xs ys : List ServiceInterviewState) (n : String)
    → named (xs ++ ys) n ≡ (named xs n || named ys n)
named-append [] ys n = refl
named-append (x ∷ xs) ys n = ground (arith, named-append xs ys n)

-- A change of one service that keeps its name.
module _ (f : ServiceInterviewState → ServiceInterviewState) where
  pub named-set :
      (xs : List ServiceInterviewState) (i : ℕ) (s : ServiceInterviewState) (n : String)
      → get_elem? xs i ≡ some s
      → display_name (f s) ≡ display_name s
      → named (set xs i (f s)) n ≡ named xs n
  named-set [] i s n e k = refl
  named-set (x ∷ xs) zero s n e k = ground (arith, k, e)
  named-set (x ∷ xs) (suc i) s n e k = ground (arith, named-set xs i s n e k)

-- Fewer needs, among more names.
pub Closed-set :
    (all xs : List ServiceInterviewState) (i : ℕ) (v : ServiceInterviewState)
    → All (λ n. named all n ≡ true) v.needs_services
    → Closed all xs
    → Closed all (set xs i v)
Closed-set all [] i v h k = tt
Closed-set all (x ∷ xs) zero v h k = (h, k.1)
Closed-set all (x ∷ xs) (suc i) v h k = (k.0, Closed-set all xs i v h k.1)

pub Closed-mono :
    (all more xs : List ServiceInterviewState)
    → ((n : String) → named all n ≡ true → named more n ≡ true)
    → Closed all xs
    → Closed more xs
Closed-mono all more xs up h = All-mono xs (λ s. All-mono s.needs_services (λ n. up n)) h

pub All-filter :
    (all : List ServiceInterviewState) (name : String) (ns : List String)
    → All (λ n. named all n ≡ true) ns
    → All (λ n. named all n ≡ true) (filter (λ n. not (n == name)) ns)
All-filter all name [] h = tt
All-filter all name (n ∷ ns) h = elim (Bool-cases (n == name)) [
  | inl same ↦ rw same (All-filter all name ns h.1)
  | inr other ↦ rw other (h.0, All-filter all name ns h.1)
]

pub Closed-get_elem? :
    (all xs : List ServiceInterviewState) (i : ℕ) (s : ServiceInterviewState)
    → Closed all xs
    → get_elem? xs i ≡ some s
    → All (λ n. named all n ≡ true) s.needs_services
Closed-get_elem? all [] i s h e = cc
Closed-get_elem? all (x ∷ xs) zero s h e = ground (arith, h.0)
Closed-get_elem? all (x ∷ xs) (suc i) s h e = Closed-get_elem? all xs i s h.1 e

module _ (f : ServiceInterviewState → ServiceInterviewState) where
  pub update_service-NeedsExist :
      (i : ℕ) (w : WizardState)
      → ((s : ServiceInterviewState) → display_name (f s) ≡ display_name s)
      → ((s : ServiceInterviewState)
          → All (λ n. named w.services n ≡ true) s.needs_services
          → All (λ n. named w.services n ≡ true) (f s).needs_services)
      → NeedsExist w
      → NeedsExist (update_service i f w)
  update_service-NeedsExist i w same keep h = elim (Option-cases (get_elem? w.services i)) [
    | inl missing ↦ rw (missing, update_service) h
    | inr (s, found) ↦
        rw (found, update_service)
          (Closed-mono w.services (set w.services i (f s)) (set w.services i (f s))
            (λ n e. ground (arith, named-set f w.services i s n found (same s)))
            (Closed-set w.services w.services i (f s)
              (keep s (Closed-get_elem? w.services w.services i s h found)) h))
  ]

named-forget :
    (r : String) (xs : List ServiceInterviewState) (n : String)
    → named (map (forget r) xs) n ≡ named xs n
named-forget r [] n = refl
named-forget r (x ∷ xs) n = ground (arith, named-forget r xs n)

named-remove_at :
    (xs : List ServiceInterviewState) (i : ℕ) (n : String)
    → named xs n ≡ true
    → (n == name_at xs i) ≡ false
    → named (remove_at i xs) n ≡ true
named-remove_at [] i n h k = cc
named-remove_at (x ∷ xs) zero n h k =
    ground (arith, eq_iff (display_name x) n, eq_iff n (display_name x))
named-remove_at (x ∷ xs) (suc i) n h k = ground (arith, named-remove_at xs i n)

named-or_default :
    (xs : List ServiceInterviewState) (n : String)
    → named xs n ≡ true
    → named (or_default xs) n ≡ true
named-or_default [] n h = cc
named-or_default (x ∷ xs) n h = h

Closed-or_default :
    (all xs : List ServiceInterviewState) → Closed all xs → Closed all (or_default xs)
Closed-or_default all [] h = (tt, tt)
Closed-or_default all (x ∷ xs) h = h

Closed-remove_at :
    (all xs : List ServiceInterviewState) (i : ℕ) → Closed all xs → Closed all (remove_at i xs)
Closed-remove_at all [] i h = tt
Closed-remove_at all (x ∷ xs) zero h = h.1
Closed-remove_at all (x ∷ xs) (suc i) h = (h.0, Closed-remove_at all xs i h.1)

-- The needs that are left name slices that are left.
All-filter_kept :
    (all kept : List ServiceInterviewState) (r : String) (ns : List String)
    → ((n : String) → named all n ≡ true → (n == r) ≡ false → named kept n ≡ true)
    → All (λ n. named all n ≡ true) ns
    → All (λ n. named kept n ≡ true) (filter (λ n. not (n == r)) ns)
All-filter_kept all kept r [] up h = tt
All-filter_kept all kept r (n ∷ ns) up h = elim (Bool-cases (n == r)) [
  | inl same ↦ rw same (All-filter_kept all kept r ns up h.1)
  | inr other ↦ rw other (up n h.0 other, All-filter_kept all kept r ns up h.1)
]

Closed-forget :
    (all kept : List ServiceInterviewState) (r : String) (xs : List ServiceInterviewState)
    → ((n : String) → named all n ≡ true → (n == r) ≡ false → named kept n ≡ true)
    → Closed all xs
    → Closed kept (map (forget r) xs)
Closed-forget all kept r [] up h = tt
Closed-forget all kept r (x ∷ xs) up h =
    (All-filter_kept all kept r x.needs_services up h.0, Closed-forget all kept r xs up h.1)

pub remove_slice-NeedsExist :
    (i : ℕ) (w : WizardState) → NeedsExist w → NeedsExist (remove_slice i w)
unfolding remove_slice
remove_slice-NeedsExist i w h =
    let r = name_at w.services i in
    let rest = remove_at i w.services in
    Closed-or_default (or_default (map (forget r) rest)) (map (forget r) rest) (
      Closed-forget w.services (or_default (map (forget r) rest)) r rest
        (λ n e k.
          named-or_default (map (forget r) rest) n
            (rw named-forget (named-remove_at w.services i n e k)))
        (Closed-remove_at w.services w.services i h))
