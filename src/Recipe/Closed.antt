-- ===== src/Recipe/Closed.antt =====
-- Which services of the recipe of recipe-generator.ts find what they need in it.
use mozza.Prelude.{
  ◌≡◌, true, List, [], ◌∷◌, ◌++◌, String, arith, eq_refl, template, includes-append, All, All-mono,
  string_eq,
}
use mozza.Interview.{WizardState, ServiceInterviewState, DependencyConfig, database}
use mozza.Recipe.{
  get_dependency_names, db_slice_name, dep_key, Progress, add_services, generate_dependency_slices,
  generate_db_slice, recipe_lines, images_section, collect_images, service_slices,
}
use mozza.Recipe.Needs.{
  Inv, IsNamed, IsCovered, HasSlice, names-HasSlice, add_services-Inv, add_services-IsCovered,
}

abbrev start : Progress
start = record { added = []; lines = [] }

HasSlice-recipe_lines :
    (state : WizardState) (name : String)
    → HasSlice (generate_dependency_slices state.services) name
    → HasSlice (recipe_lines state) name
unfolding recipe_lines
HasSlice-recipe_lines state name h =
    let line = template (name ∷ ":" ∷ []) in
    let slices = service_slices state.services state.target in
    let deps = generate_dependency_slices state.services in
    let images = images_section (collect_images state.services []) in
    ground
      (arith, h, includes-append images (slices ++ deps) line, includes-append slices deps line)

dependency_names-HasSlice :
    (a : String) (svcs : List ServiceInterviewState) (p : Progress)
    → All (IsNamed a) svcs
    → Inv a p
    → All (λ svc. All (IsCovered p.added) svc.dependencies) svcs
    → All (λ svc. All (HasSlice p.lines) (get_dependency_names svc)) svcs
unfolding get_dependency_names
dependency_names-HasSlice a [] p named inv h = tt
dependency_names-HasSlice a (svc ∷ svcs) p named inv h = (
  rw named.0 (names-HasSlice a p svc.dependencies inv h.0),
  dependency_names-HasSlice a svcs p named.1 inv h.1,
)

-- Where all services go by one name, every slice that a service needs is in the recipe.
pub recipe_lines-HasSlice :
    (a : String) (state : WizardState)
    → All (IsNamed a) state.services
    → All (λ svc. All (HasSlice (recipe_lines state)) (get_dependency_names svc)) state.services
unfolding generate_dependency_slices
recipe_lines-HasSlice a state named =
    let p : Progress = add_services state.services start in
    All-mono state.services
      (λ svc. All-mono (get_dependency_names svc) (λ n. HasSlice-recipe_lines state n))
      (dependency_names-HasSlice a state.services p named
        (add_services-Inv a state.services start named (λ d k. cc))
        (add_services-IsCovered state.services start))

-- Two services whose only dependency is an enabled database, of the same engine, get one
-- database slice, named after the first; the second service still needs the slice that is named
-- after itself.
pub shared_database :
    (s t : ServiceInterviewState) (d e : DependencyConfig)
    → s.dependencies ≡ d ∷ []
    → t.dependencies ≡ e ∷ []
    → (d.enabled ≡ true) × (d.type ≡ database)
    → (e.enabled ≡ true) × (e.type ≡ database)
    → d.engine ≡ e.engine
    → (generate_dependency_slices (s ∷ t ∷ []) ≡ generate_db_slice d s.alias_name)
      × (get_dependency_names t ≡ db_slice_name t.alias_name ∷ [])
unfolding generate_dependency_slices get_dependency_names
shared_database s t d e hs ht (d_on, d_db) (e_on, e_db) same =
    (ground (arith, eq_refl (dep_key d)), ground arith)
