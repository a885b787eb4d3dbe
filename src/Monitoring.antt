-- ===== src/Monitoring.antt =====
-- `groupPodsByApp` of ui/src/pages/MonitoringPage.tsx, and what the panels of
-- ui/src/components/monitoring say of its summaries. The estimates of a summary, which are drawn at
-- random, are left out.
pub mod Chart
pub mod Groups
pub mod Polling
mod Tests
use Prim.Native.Char.{Char, code}
use Prim.Native.String
use mozza.Prelude.{
  ℕ, suc, ◌+◌, Bool, true, false, not, ◌&&◌, ◌||◌, Option, none, some, List, [], ◌∷◌, ◌++◌, map,
  String, template, length, filter, all, codes, leb, ltb, ◌==◌, nat_eq, string_eq, if◌then◌else◌,
}
use mozza.Interview.Combo.{or_else}

pub record ClusterPod : Type 0 where
  pub name : String
  pub namespace : String
  pub status : String
  pub ready : String
  pub restarts : ℕ
  pub app : String

-- `.split("-")`
split_dash : List ℕ → List (List ℕ)
split_dash [] = [] ∷ []
split_dash (c ∷ s) =
    let rest = split_dash s in
    if c == b'-' then [] ∷ rest else elim rest [ [] ↦ (c ∷ []) ∷ [] | w ∷ ws ↦ (c ∷ w) ∷ ws ]

-- `[a-z0-9]{m,n}`
abbrev is_run : ℕ → ℕ → List ℕ → Bool
is_run m n w =
    leb m (length w)
    && leb (length w) n
    && all (λ c. leb b'a' c && leb c b'z' || leb b'0' c && leb c b'9') w

-- `^-[a-z0-9]{5,10}(-[a-z0-9]{5})?$`
is_suffix : List ℕ → Bool
unfolding split_dash
is_suffix s = elim (split_dash s) [
  | [] ∷ w ∷ [] ↦ is_run 5 10 w
  | [] ∷ w ∷ v ∷ [] ↦ is_run 5 10 w && is_run 5 5 v
  | _ ↦ false
]

-- The name without the suffix that Kubernetes gives to the pods of a deployment.
strip_suffix : String → String
unfolding is_suffix
strip_suffix String.[] = ""
strip_suffix (String.◌∷◌ c s) =
    let rest = strip_suffix s in
    if is_suffix (codes (String.◌∷◌ c s)) then "" else String.◌∷◌ c rest

pub group_key : ClusterPod → String
unfolding strip_suffix
group_key pod = template (pod.namespace ∷ "/" ∷ or_else pod.app (strip_suffix pod.name) ∷ [])

-- The groups, in the order in which their keys were first met.
abbrev pub Groups : Type 0
Groups = List (String × List ClusterPod)

abbrev pub push : String → ClusterPod → Groups → Groups
push k pod [] = (k, pod ∷ []) ∷ []
push k pod ((k2, pods) ∷ gs) =
    if k2 == k then (k2, pods ++ pod ∷ []) ∷ gs else (k2, pods) ∷ push k pod gs

pub group_from : List ClusterPod → Groups → Groups
group_from [] gs = gs
group_from (pod ∷ pods) gs = group_from pods (push (group_key pod) pod gs)

pub record AppSummary : Type 0 where
  pub name : String
  pub namespace : String
  pub pods : List ClusterPod
  pub running_count : ℕ
  pub total_count : ℕ
  pub restart_count : ℕ

-- The text before the first slash, and the text after it.
slash_cut : String → Option (String × String)
slash_cut String.[] = none
slash_cut (String.◌∷◌ c s) =
    let rest = slash_cut s in
    if code c == b'/'
    then some ("", s)
    else elim rest [ none ↦ none | some p ↦ some (String.◌∷◌ c p.0, p.1) ]

abbrev pub sum {ℓ} : {A : Type ℓ} → (A → ℕ) → List A → ℕ
sum f [] = 0
sum f (x ∷ xs) = f x + sum f xs

pub summary : String × List ClusterPod → AppSummary
unfolding slash_cut
summary g = record {
  name = elim (slash_cut g.0) [ none ↦ g.0 | some p ↦ p.1 ];
  namespace = elim (slash_cut g.0) [ none ↦ "" | some p ↦ p.0 ];
  pods = g.1;
  running_count = length (filter (λ p. p.status == "Running") g.1);
  total_count = length g.1;
  restart_count = sum (λ p. p.restarts) g.1;
}

-- `.sort((a, b) => b.totalCount - a.totalCount)`, which keeps the order of equals.
abbrev pub insert : AppSummary → List AppSummary → List AppSummary
insert a [] = a ∷ []
insert a (b ∷ bs) = if leb b.total_count a.total_count then a ∷ b ∷ bs else b ∷ insert a bs

abbrev pub sort : List AppSummary → List AppSummary
sort [] = []
sort (a ∷ as_) = insert a (sort as_)

pub group_pods_by_app : List ClusterPod → List AppSummary
unfolding group_from summary
group_pods_by_app pods = sort (map summary (group_from pods []))

pub data HealthStatus : Type 0 where
  healthy degraded down unknown : HealthStatus

pub derive_health_status : ℕ → ℕ → ℕ → ℕ → HealthStatus
derive_health_status running total cpu mem =
    if total == 0
    then unknown
    else if running == 0
    then down
    else if ltb running total || ltb 90 cpu || ltb 90 mem
    then degraded
    else healthy

pub data AlertLevel : Type 0 where
  none_level warning critical : AlertLevel

pub resource_alert_level : ℕ → AlertLevel
resource_alert_level percent =
    if ltb 90 percent then critical else if ltb 80 percent then warning else none_level
