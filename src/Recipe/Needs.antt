-- ===== src/Recipe/Needs.antt =====
-- Whether what a service of the recipe of recipe-generator.ts needs is a slice of that recipe.
use Prim.Native.String
use Prim.Native.String.append
use Prim.Native.Char.{code}
use mozza.Prelude.{
  ℕ, ◌≡◌, refl, sym, ap, ◌∙◌, inl, inr, true, not, ◌||◌, List, [], ◌∷◌, ◌++◌, String, arith, eq_iff,
  eq_refl, template, includes, includes-append, All, All-append, string_eq, Bool-cases,
}
use mozza.Interview.{
  ServiceInterviewState, DependencyConfig, DependencyType, database, cache, queue,
}
use mozza.Recipe.{
  dependency_names_from, db_slice_name, dep_key, type_text, Progress, add_dependency,
  add_dependencies, add_services, generate_db_slice, dep_slice, dependency_name,
}

-- The first character of a key tells its kind.
abbrev first_code : String → ℕ
first_code String.[] = 0
first_code (String.◌∷◌ c s) = code c

abbrev letter : DependencyType → ℕ
letter database = b'd'
letter cache = b'c'
letter queue = b'q'

first_code-key :
    (t : DependencyType) (s : String) → first_code (String.◌++◌ (type_text t) s) ≡ letter t
first_code-key database s = ap first_code (append.cons "d" "atabase" s)
first_code-key cache s = ap first_code (append.cons "c" "ache" s)
first_code-key queue s = ap first_code (append.cons "q" "ueue" s)

letter-injective : (s t : DependencyType) → letter s ≡ letter t → s ≡ t
letter-injective s t h = ground arith

dep_key-type : (d e : DependencyConfig) → dep_key d ≡ dep_key e → d.type ≡ e.type
unfolding template
dep_key-type d e h =
    letter-injective d.type e.type
      (sym (first_code-key d.type _) ∙ ap first_code h ∙ first_code-key e.type _)

-- The slice that a dependency of the services named `a` stands for is among the lines.
abbrev pub IsDeclared : String → DependencyType → List String → Type 0
IsDeclared a database lines = includes lines (template (db_slice_name a ∷ ":" ∷ [])) ≡ true
IsDeclared a cache lines = includes lines "cache:" ≡ true
IsDeclared a queue lines = Unit

-- Every key in `addedDeps` has its slice.
abbrev pub Inv : String → Progress → Type 0
Inv a p = (d : DependencyConfig) → includes p.added (dep_key d) ≡ true → IsDeclared a d.type p.lines

IsDeclared-append_left :
    (a : String) (t : DependencyType) (xs ys : List String)
    → IsDeclared a t xs
    → IsDeclared a t (xs ++ ys)
IsDeclared-append_left a database xs ys h =
    ground (arith, includes-append xs ys (template (db_slice_name a ∷ ":" ∷ [])))
IsDeclared-append_left a cache xs ys h = ground (arith, includes-append xs ys "cache:")
IsDeclared-append_left a queue xs ys h = tt

IsDeclared-append_right :
    (a : String) (t : DependencyType) (xs ys : List String)
    → IsDeclared a t ys
    → IsDeclared a t (xs ++ ys)
IsDeclared-append_right a database xs ys h =
    ground (arith, includes-append xs ys (template (db_slice_name a ∷ ":" ∷ [])))
IsDeclared-append_right a cache xs ys h = ground (arith, includes-append xs ys "cache:")
IsDeclared-append_right a queue xs ys h = tt

dep_slice-IsDeclared :
    (a : String) (dep : DependencyConfig) → IsDeclared a dep.type (dep_slice dep a)
unfolding generate_db_slice
dep_slice-IsDeclared a dep = go dep.type refl
  where
    go : (t : DependencyType) → dep.type ≡ t → IsDeclared a dep.type (dep_slice dep a)
    go database e = rw (e, eq_refl)
    go cache e = rw e refl
    go queue e = rw e tt

add_dependency-Inv :
    (a : String) (dep : DependencyConfig) (p : Progress) → Inv a p → Inv a (add_dependency a dep p)
unfolding add_dependency
add_dependency-Inv a dep p inv d h =
    elim (Bool-cases (not dep.enabled || includes p.added (dep_key dep))) [
      | inl skip ↦ rw skip (inv d (rw skip at h))
      | inr fresh ↦ rw fresh (go (rw fresh at h))
    ]
  where
    go :
        includes (p.added ++ dep_key dep ∷ []) (dep_key d) ≡ true
        → IsDeclared a d.type (p.lines ++ dep_slice dep a)
    go k = elim (Bool-cases (includes p.added (dep_key d))) [
      | inl old ↦ IsDeclared-append_left a d.type _ _ (inv d old)
      | inr new ↦
          let same : dep_key dep ≡ dep_key d = ground (
            arith,
            includes-append p.added (dep_key dep ∷ []) (dep_key d),
            eq_iff (dep_key dep) (dep_key d),
          ) in
          IsDeclared-append_right a d.type p.lines (dep_slice dep a)
            (rw (← dep_key-type dep d same) (dep_slice-IsDeclared a dep))
    ]

add_dependency_grows :
    (a : String) (dep : DependencyConfig) (p : Progress) (k : String)
    → includes p.added k ≡ true
    → includes (add_dependency a dep p).added k ≡ true
unfolding add_dependency
add_dependency_grows a dep p k h = ground (arith, includes-append p.added (dep_key dep ∷ []) k)

add_dependency_self :
    (a : String) (dep : DependencyConfig) (p : Progress)
    → dep.enabled ≡ true
    → includes (add_dependency a dep p).added (dep_key dep) ≡ true
unfolding add_dependency
add_dependency_self a dep p h =
    ground (arith, includes-append p.added (dep_key dep ∷ []) (dep_key dep), eq_refl (dep_key dep))

add_dependencies-Inv :
    (a : String) (deps : List DependencyConfig) (p : Progress)
    → Inv a p
    → Inv a (add_dependencies a deps p)
unfolding add_dependencies
add_dependencies-Inv a [] p inv = inv
add_dependencies-Inv a (dep ∷ deps) p inv =
    add_dependencies-Inv a deps (add_dependency a dep p) (add_dependency-Inv a dep p inv)

add_dependencies_grows :
    (a : String) (deps : List DependencyConfig) (p : Progress) (k : String)
    → includes p.added k ≡ true
    → includes (add_dependencies a deps p).added k ≡ true
unfolding add_dependencies
add_dependencies_grows a [] p k h = h
add_dependencies_grows a (dep ∷ deps) p k h =
    add_dependencies_grows a deps (add_dependency a dep p) k (add_dependency_grows a dep p k h)

-- The keys of the enabled dependencies are among the added ones.
abbrev pub IsCovered : List String → DependencyConfig → Type 0
IsCovered added dep = dep.enabled ≡ true → includes added (dep_key dep) ≡ true

add_dependencies-IsCovered :
    (a : String) (deps : List DependencyConfig) (p : Progress)
    → All (IsCovered (add_dependencies a deps p).added) deps
unfolding add_dependencies
add_dependencies-IsCovered a [] p = tt
add_dependencies-IsCovered a (dep ∷ deps) p = (
  λ h.
      add_dependencies_grows a deps (add_dependency a dep p) (dep_key dep)
        (add_dependency_self a dep p h),
  add_dependencies-IsCovered a deps (add_dependency a dep p),
)

module _ (a : String) where
  abbrev pub IsNamed : ServiceInterviewState → Type 0
  IsNamed svc = svc.alias_name ≡ a

  pub add_services-Inv :
      (svcs : List ServiceInterviewState) (p : Progress)
      → All IsNamed svcs
      → Inv a p
      → Inv a (add_services svcs p)
  unfolding add_services
  add_services-Inv [] p named inv = inv
  add_services-Inv (svc ∷ svcs) p named inv =
      add_services-Inv svcs (add_dependencies svc.alias_name svc.dependencies p) named.1
        (rw named.0 (add_dependencies-Inv a svc.dependencies p inv))

add_services_grows :
    (svcs : List ServiceInterviewState) (p : Progress) (k : String)
    → includes p.added k ≡ true
    → includes (add_services svcs p).added k ≡ true
unfolding add_services
add_services_grows [] p k h = h
add_services_grows (svc ∷ svcs) p k h =
    add_services_grows svcs (add_dependencies svc.alias_name svc.dependencies p) k
      (add_dependencies_grows svc.alias_name svc.dependencies p k h)

IsCovered-mono :
    (xs ys : List String) (deps : List DependencyConfig)
    → ((k : String) → includes xs k ≡ true → includes ys k ≡ true)
    → All (IsCovered xs) deps
    → All (IsCovered ys) deps
IsCovered-mono xs ys [] up h = tt
IsCovered-mono xs ys (dep ∷ deps) up h =
    (λ e. up (dep_key dep) (h.0 e), IsCovered-mono xs ys deps up h.1)

pub add_services-IsCovered :
    (svcs : List ServiceInterviewState) (p : Progress)
    → All (λ svc. All (IsCovered (add_services svcs p).added) svc.dependencies) svcs
unfolding add_services
add_services-IsCovered [] p = tt
add_services-IsCovered (svc ∷ svcs) p =
    let q : Progress = add_dependencies svc.alias_name svc.dependencies p in
    (
      IsCovered-mono _ _ svc.dependencies (add_services_grows svcs q)
          (add_dependencies-IsCovered svc.alias_name svc.dependencies p),
      add_services-IsCovered svcs q,
    )

-- A slice of this name is among the lines.
abbrev pub HasSlice : List String → String → Type 0
HasSlice lines name = includes lines (template (name ∷ ":" ∷ [])) ≡ true

name-HasSlice :
    (a : String) (lines : List String) (dep : DependencyConfig)
    → (dep.enabled ≡ true → IsDeclared a dep.type lines)
    → All (HasSlice lines) (dependency_name a dep)
unfolding template
name-HasSlice a lines dep h = elim (Bool-cases dep.enabled) [
  | inl on ↦ rw on (go dep.type (h on))
  | inr off ↦ rw off tt
]
  where
    go :
        (t : DependencyType)
        → IsDeclared a t lines
        → All (HasSlice lines) (dependency_name a (record dep { enabled = true; type = t }))
    go database k = (k, tt)
    go cache k = (k, tt)
    go queue k = tt

pub names-HasSlice :
    (a : String) (p : Progress) (deps : List DependencyConfig)
    → Inv a p
    → All (IsCovered p.added) deps
    → All (HasSlice p.lines) (dependency_names_from a deps)
unfolding dependency_names_from
names-HasSlice a p [] inv h = tt
names-HasSlice a p (dep ∷ deps) inv h =
    All-append (HasSlice p.lines) (dependency_name a dep) (dependency_names_from a deps)
      (name-HasSlice a p.lines dep (λ on. inv dep (h.0 on))) (names-HasSlice a p deps inv h.1)
