-- ===== src/Recommendation.antt =====
-- ui/src/lib/recommendation-engine.ts: which workload the wizard recommends for a set of traits,
-- and the panels of the wizard that choose the traits and the workload
-- (ui/src/components/deploy/order-wizard/StepTraits.tsx, StepWorkloadInference.tsx).
pub mod Rules
pub mod Sets
mod Tests
use mozza.Prelude.{
  ℕ, Bool, true, false, not, ◌&&◌, Option, none, some, List, [], ◌∷◌, ◌++◌, String, template,
  length, filter, find, includes, ◌==◌, nat_eq, string_eq, if◌then◌else◌,
}
use mozza.Interview.{
  Trait, web_facing, stateful, worker, trait_eq, WorkloadType, replicaset, statefulset, daemonset,
  cronjob, workload_type_eq,
}

pub data Confidence : Type 0 where
  high medium : Confidence

pub record Recommendation : Type 0 where
  pub workload_type : WorkloadType
  pub confidence : Confidence
  pub reasoning : String
  pub explanation : String

pub record InferenceRule : Type 0 where
  pub match : List Trait → Bool
  pub workload_type : WorkloadType
  pub confidence : Confidence
  pub reasoning : String
  pub explanation : String

abbrev chef : String
chef = "Like assigning a dedicated chef to each station"

abbrev ovens : String
ovens = "Like having multiple ovens running the same recipe"

abbrev pub rules : List InferenceRule
rules =
    record {
      match = λ t. includes t web_facing && includes t stateful && includes t worker;
      workload_type = statefulset;
      confidence = high;
      reasoning =
          "Your app is web-facing, stores data, and runs background tasks. Since it manages its own data, each copy needs dedicated storage.";
      explanation = chef;
    }
    ∷ record {
      match = λ t. includes t stateful && includes t web_facing;
      workload_type = statefulset;
      confidence = high;
      reasoning =
          "Your app serves web traffic and stores data. Each copy needs its own data that survives restarts to keep data safe.";
      explanation = chef;
    }
    ∷ record {
      match = λ t. includes t stateful && includes t worker;
      workload_type = statefulset;
      confidence = high;
      reasoning =
          "Your app processes tasks in the background and stores data. Each worker needs its own dedicated data space.";
      explanation = chef;
    }
    ∷ record {
      match = λ t. includes t stateful && length t == 1;
      workload_type = statefulset;
      confidence = high;
      reasoning = "Your app manages data, so each copy needs its own data that survives restarts.";
      explanation = chef;
    }
    ∷ record {
      match = λ t. includes t web_facing && not (includes t stateful);
      workload_type = replicaset;
      confidence = high;
      reasoning =
          "Your app serves web traffic without managing its own data. Identical copies give you the best availability and scaling.";
      explanation = ovens;
    }
    ∷ record {
      match = λ t. includes t worker && length t == 1;
      workload_type = replicaset;
      confidence = medium;
      reasoning =
          "Your app runs background tasks. For long-running workers, identical copies handle the workload. If it runs on a schedule, switch to Scheduled below.";
      explanation = ovens;
    }
    ∷ []

abbrev pub fallback : Recommendation
fallback = record {
  workload_type = replicaset;
  confidence = medium;
  reasoning = "We recommend identical copies as a safe default.";
  explanation = ovens;
}

-- The loop of `getRecommendation`: the first rule that matches.
pub first_match : List Trait → Option InferenceRule
first_match traits = find (λ r. r.match traits) rules

pub get_recommendation : List Trait → Recommendation
unfolding first_match
get_recommendation traits = elim (first_match traits) [
  | none ↦ fallback
  | some r ↦ record {
    workload_type = r.workload_type;
    confidence = r.confidence;
    reasoning = r.reasoning;
    explanation = r.explanation;
  }
]

pub workload_label : WorkloadType → String
workload_label replicaset = "Identical copies"
workload_label statefulset = "Copies with own storage"
workload_label daemonset = "One per server"
workload_label cronjob = "Runs on a timer"

pub workload_subtitle : WorkloadType → String
workload_subtitle replicaset = "Multiple copies for reliability. If one fails, others keep working."
workload_subtitle statefulset = "Each copy remembers its own data. Good for databases."
workload_subtitle daemonset = "Puts one copy on every server in your system. Good for monitoring."
workload_subtitle cronjob = "Runs at specific times, then stops until the next run."

pub workload_analogy : WorkloadType → String
workload_analogy replicaset = "Like having multiple ovens running the same recipe"
workload_analogy statefulset = "Like assigning a dedicated chef to each station"
workload_analogy daemonset = "Like putting a menu in every window"
workload_analogy cronjob = "Like a timer that fires up the oven on a schedule"

-- StepTraits.tsx: a click on a trait's card.
pub toggle : Trait → List Trait → List Trait
toggle t traits = if includes traits t then filter (λ v. not (v == t)) traits else traits ++ t ∷ []

-- StepWorkloadInference.tsx: the update that a click on a workload's card sends.
pub record WorkloadChoice : Type 0 where
  pub workload_type : WorkloadType
  pub workload_overridden : Bool
  pub schedule : String

pub select_workload : List Trait → String → WorkloadType → WorkloadChoice
select_workload traits schedule wt = record {
  workload_type = wt;
  workload_overridden = not (wt == (get_recommendation traits).workload_type);
  schedule = if wt == cronjob && schedule == "" then "0 * * * *" else schedule;
}
