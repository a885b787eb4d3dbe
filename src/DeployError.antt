-- ===== src/DeployError.antt =====
-- ui/src/lib/deploy-error-intelligence.ts: the explanation of a failed deployment.
pub mod Explained
mod Tests
use mozza.Prelude.{
  ℕ, Bool, Option, none, some, List, [], ◌∷◌, String, find, any, join, lower, template, decimal,
  Pattern, phrase, on_line, matches, ◌==◌, nat_eq, if◌then◌else◌,
}

pub record DeployErrorInfo : Type 0 where
  pub title : String
  pub message : String
  pub steps : List String
  pub technical_detail : String

pub record ErrorPattern : Type 0 where
  pub patterns : List Pattern
  pub error : DeployErrorInfo

abbrev pub image_missing : ErrorPattern
image_missing = record {
  patterns =
      phrase "ImagePullBackOff"
      ∷ phrase "ErrImagePull"
      ∷ on_line "image" "not found"
      ∷ phrase "pull access denied"
      ∷ [];
  error = record {
    title = "Can't find your app";
    message = "Mozza couldn't download the app package you specified.";
    steps =
        "Double-check the app package URL you entered"
        ∷ "Make sure the package exists and is publicly accessible"
        ∷ "If it's a private package, check that your credentials are set up" ∷ [];
    technical_detail =
        "ImagePullBackOff — the container runtime couldn't pull the specified image from the registry. Verify the image ref, tag, and pull secrets.";
  };
}

abbrev pub not_allowed : ErrorPattern
not_allowed = record {
  patterns =
      phrase "Forbidden"
      ∷ phrase "RBAC"
      ∷ phrase "cannot create"
      ∷ phrase "permission denied"
      ∷ phrase "unauthorized"
      ∷ [];
  error = record {
    title = "Permission denied";
    message = "Mozza doesn't have permission to deploy to this environment.";
    steps =
        "Ask your system administrator to grant deployment access"
        ∷ "Share this error with them — they'll know what to do" ∷ [];
    technical_detail =
        "RBAC error — the service account used by Mozza lacks the required ClusterRole/Role bindings for this namespace.";
  };
}

abbrev pub unreachable : ErrorPattern
unreachable = record {
  patterns =
      phrase "connection refused"
      ∷ phrase "unreachable"
      ∷ phrase "no route to host"
      ∷ phrase "i/o timeout"
      ∷ [];
  error = record {
    title = "Can't reach the kitchen";
    message =
        "We couldn't connect to your cluster. Check that it's running and the kubeconfig is still valid.";
    steps =
        "Make sure your cluster is running" ∷ "Check that your connection settings are still valid"
        ∷ "Try reconnecting from the clusters page" ∷ [];
    technical_detail =
        "Connection error — the API server is unreachable. Check network connectivity, firewall rules, and kubeconfig validity.";
  };
}

abbrev pub out_of_memory : ErrorPattern
out_of_memory = record {
  patterns = phrase "OOMKilled" ∷ [];
  error = record {
    title = "Your app ran out of memory";
    message = "Your app tried to use more memory than was allocated.";
    steps =
        "Try a larger resource size (L or XL in Customize)"
        ∷ "Check for memory leaks if this happens repeatedly" ∷ [];
    technical_detail =
        "OOMKilled — the container exceeded its memory limit and was terminated by the kernel OOM killer.";
  };
}

abbrev pub crashed : ErrorPattern
crashed = record {
  patterns = phrase "CrashLoopBackOff" ∷ phrase "crash" ∷ phrase "exit code" ∷ [];
  error = record {
    title = "Your app crashed on startup";
    message =
        "Mozza started your app but it immediately stopped. This usually means there's an error in your app's code or configuration.";
    steps =
        "Check your app's logs for errors"
        ∷ "Make sure your app runs without errors on your computer first"
        ∷ "Check that all required settings (environment variables) are set"
        ∷ "If you set a health check, make sure the URL path exists" ∷ [];
    technical_detail =
        "CrashLoopBackOff — the container starts, exits with non-zero, and Kubernetes restarts it in a back-off loop.";
  };
}

abbrev pub no_room : ErrorPattern
no_room = record {
  patterns = phrase "quota" ∷ phrase "insufficient" ∷ on_line "resource" "exceeded" ∷ [];
  error = record {
    title = "Not enough room";
    message = "The system doesn't have enough space to run your app right now.";
    steps =
        "Try a smaller resource size (S or M)" ∷ "Reduce the number of copies to 1 or 2"
        ∷ "Ask your admin if more capacity can be added" ∷ [];
    technical_detail = "Resource quota exceeded or insufficient cluster resources.";
  };
}

abbrev pub too_slow : ErrorPattern
too_slow = record {
  patterns =
      phrase "deadline exceeded"
      ∷ phrase "timeout"
      ∷ phrase "timed out"
      ∷ phrase "taking too long"
      ∷ [];
  error = record {
    title = "Taking too long";
    message = "Your app hasn't started within the expected time.";
    steps =
        "Check your app's logs for errors"
        ∷ "Your app might need more time — this is common for large apps"
        ∷ "Try again in a few minutes" ∷ "If this keeps happening, try a larger resource size" ∷ [];
    technical_detail = "Deployment readiness timeout. Pods are not reaching Ready state.";
  };
}

abbrev pub error_patterns : List ErrorPattern
error_patterns =
    image_missing ∷ not_allowed ∷ unreachable ∷ out_of_memory ∷ crashed ∷ no_room ∷ too_slow ∷ []

-- `patterns` of an entry against the log, in lower case: the patterns do not look at the case.
abbrev pub entry_matches : List ℕ → ErrorPattern → Bool
entry_matches log e = any (λ p. matches p log) e.patterns

abbrev error_of : Option ErrorPattern → Option DeployErrorInfo
error_of none = none
error_of (some e) = some e.error

-- The lines of the log, in lower case.
abbrev pub full_log : List String → List ℕ
full_log log_lines = lower (join "\n" log_lines)

unfoldable pub analyze_deploy_error : List String → Option DeployErrorInfo
analyze_deploy_error log_lines = error_of (find (entry_matches (full_log log_lines)) error_patterns)

unfoldable pub get_pizza_stage_label : ℕ → String
get_pizza_stage_label step_number =
    if step_number == 1
    then "Taking your order…"
    else if step_number == 2
    then "Prepping ingredients…"
    else if step_number == 3
    then "Prepping ingredients…"
    else if step_number == 4
    then "Firing up the oven…"
    else if step_number == 5
    then "Checking the crust…"
    else template ("Step " ∷ decimal step_number ∷ "…" ∷ [])

abbrev pub pizza_stage_labels : List String
pizza_stage_labels =
    "Taking your order…" ∷ "Prepping ingredients…" ∷ "Firing up the oven…" ∷ "Checking the crust…"
    ∷ "Checking the crust…" ∷ []
