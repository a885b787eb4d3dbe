-- ===== src/Applications.antt =====
-- The status of an application: `deriveStatus` and `buildAppSummaries` of
-- ui/src/pages/ApplicationsPage.tsx and `parseReadyFraction` of ApplicationDetailPage.tsx.
pub mod Ready
pub mod Summaries
mod Tests
use Prim.Native.Char.{Char, code}
use Prim.Native.String
use mozza.Prelude.{
  ℕ, suc, ◌+◌, ◌-◌, ◌*◌, ℤ, pos, negsuc, Bool, true, false, not, ◌&&◌, ◌||◌, Option, none, some,
  List, [], ◌∷◌, ◌++◌, map, String, template, length, filter, get_elem?, codes, leb, ltb, ◌==◌,
  nat_eq, string_eq, if◌then◌else◌, codes_beq,
}
use mozza.Interview.Combo.{or_else}
use mozza.Monitoring.{ClusterPod}

pub record ClusterDeployment : Type 0 where
  pub name : String
  pub namespace : String
  pub ready : String
  pub age : String
  pub image : String

pub data AppStatus : Type 0 where
  healthy degraded failing : AppStatus

-- `.split("/")`, of a text by its code points.
unfoldable pub split_slash : List ℕ → List (List ℕ)
split_slash [] = [] ∷ []
split_slash (c ∷ s) =
    let rest = split_slash s in
    if c == b'/' then [] ∷ rest else elim rest [ [] ↦ (c ∷ []) ∷ [] | w ∷ ws ↦ (c ∷ w) ∷ ws ]

abbrev pub is_digit : ℕ → Bool
is_digit c = leb b'0' c && leb c b'9'

-- `parseInt(s, 10)` of a text without spaces or a sign in front, with `none` for NaN.
unfoldable pub parse_from : Option ℕ → List ℕ → Option ℕ
parse_from acc [] = acc
parse_from acc (c ∷ s) =
    let digit = c - b'0' in
    let value : ℕ = elim acc [ none ↦ digit | some n ↦ n * 10 + digit ] in
    let more = parse_from (some value) s in if is_digit c then more else acc

pub parse_int : List ℕ → Option ℕ
unfolding parse_from
parse_int s = parse_from none s

pub record Fraction : Type 0 where
  pub ready : Option ℕ
  pub total : Option ℕ

unfoldable pub parse_ready_fraction : String → Fraction
unfolding parse_int
parse_ready_fraction ready = elim (split_slash (codes ready)) [
  | a ∷ b ∷ [] ↦ record { ready = parse_int a; total = parse_int b }
  | _ ↦ record { ready = some 0; total = some 0 }
]

-- `===` of two numbers, where NaN is equal to none.
abbrev same_number : Option ℕ → Option ℕ → Bool
same_number (some a) (some b) = a == b
same_number _ _ = false

pub derive_status : Option ℕ → Option ℕ → AppStatus
derive_status ready_pods total_pods =
    if same_number total_pods (some 0)
    then failing
    else if same_number ready_pods total_pods
    then healthy
    else if same_number ready_pods (some 0)
    then failing
    else degraded

abbrev pub is_ready : ClusterPod → Bool
is_ready p = elim (split_slash (codes p.ready)) [
  | a ∷ b ∷ [] ↦ codes_beq a b && not (codes_beq a (codes "0"))
  | _ ↦ false
]

pub record Summary : Type 0 where
  pub id : String
  pub name : String
  pub namespace : String
  pub image : String
  pub age : String
  pub ready_pods : Option ℕ
  pub total_pods : Option ℕ
  pub status : AppStatus
  pub ready : String

abbrev pub pods_of : ClusterDeployment → List ClusterPod → List ClusterPod
pods_of dep pods = filter (λ p. p.namespace == dep.namespace && p.app == dep.name) pods

-- `parseInt(parts[i] ?? "0", 10)`
abbrev part : ℕ → String → Option ℕ
part i ready = elim (get_elem? (split_slash (codes ready)) i) [
  | none ↦ parse_int (codes "0")
  | some s ↦ parse_int s
]

unfoldable pub build_app_summary : List ClusterPod → ClusterDeployment → Summary
unfolding derive_status split_slash parse_int
build_app_summary pods dep =
    let dep_pods = pods_of dep pods in
    let counted = ltb 0 (length dep_pods) in
    let effective_ready =
      if counted then some (length (filter is_ready dep_pods)) else part 0 dep.ready in
    let effective_total = if counted then some (length dep_pods) else part 1 dep.ready in
    record {
      id = template (dep.namespace ∷ "--" ∷ dep.name ∷ []);
      name = dep.name;
      namespace = dep.namespace;
      image = or_else dep.image "unknown";
      age = dep.age;
      ready_pods = effective_ready;
      total_pods = effective_total;
      status = derive_status effective_ready effective_total;
      ready = dep.ready;
    }

pub build_app_summaries : List ClusterDeployment → List ClusterPod → List Summary
unfolding build_app_summary
build_app_summaries deps pods = map (build_app_summary pods) deps
