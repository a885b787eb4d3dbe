-- ===== src/Lib.antt =====
-- The web interface of mozza (ui/src): how the answers of an order become a recipe, how that is deployed,
-- and what the pages show of the deployments and the cluster.
--
-- A user answers an interview about the services of an application; the answers are a WizardState.
-- The interview engine says which question comes next and what a preset fills in, the
-- recommendation engine which kind of workload a service is. From the state, a recipe is written:
-- a text with a block per service ("slice"), which names the slices it needs.
--
-- - Prelude: lists, tests and strings. A string is the library's; what the source does with its
--   letters (toLowerCase, includes, trim, a replacement) is a function of its character codes.
--   Lower case is that of ASCII. `template` is a template literal.
-- - Interview: ui/src/lib/interview-types.ts. A union of strings is a data type, a field
--   that may be missing an Option, a number of type `number` a natural number.
--     Interview/Steps: the steps of ui/src/lib/interview-engine.ts; `get_next_step` is getNextStep.
--     Interview/Combo: applyComboDefaults and its presets, in the same file.
-- - Recommendation: ui/src/lib/recommendation-engine.ts, and the two steps of the order that use
--   it, ui/src/components/deploy/order-wizard/StepTraits.tsx and StepWorkloadInference.tsx.
--   Recommendation/Sets has the set of traits, a quotient of their lists.
-- - Recipe: ui/src/lib/recipe-generator.ts. Lines are a list; a loop that pushes lines is a
--   recursive function that returns them.
-- - Order: ui/src/components/deploy/OrderWizard.tsx.
--     Order/Slices: the second step. A handler is the function that the source hands to
--     `setWizardState`, guarded by the condition under which its button is shown; `perform` is one
--     action of the user and `perform_all` a sequence of them, in the order in which React applies
--     the updates.
--     Order/Source: buildRecipeSource.
--     Order/Navigation: the selection, the three steps, and the recipe under review. The key of a
--     template's variable is taken to be a word, and its value to have no "$", so that the
--     replacement by a regular expression is one of texts.
-- - Networking: ui/src/lib/networking-recommendations.ts. A regular expression is a Pattern of
--   Prelude/Patterns.
-- - DeployError: ui/src/lib/deploy-error-intelligence.ts.
-- - Terminal: ui/src/components/deploy/DeployTerminal.tsx. Terminal has the state and the messages
--   of the socket, Terminal/Connection the socket itself, its timer and the fetched status; the
--   constructors of `Step` are the events, with the condition under which each can come.
-- - ClusterData: ui/src/hooks/useClusterData.ts. A fetch in flight is known by its key; `asked` and
--   `joined` are doFetch up to its `await`, `resolve` and `reject` the rest of it, for all the uses
--   of the hook that await the fetch.
-- - Builder: ui/src/components/builder (Canvas.tsx, BlockPalette.tsx, PropertyPanel.tsx) on the
--   types of ui/src/api/types.ts. Builder/Linked has the actions of the user, Builder/Source
--   generateSource of ui/src/pages/RecipeBuilderPage.tsx. Positions are whole pixels.
-- - Guided: ui/src/components/deploy/GuidedWizard.tsx. Guided has the services and the controls of
--   StepDetails, FullStackDetails and StepExtras, each with the condition under which it is shown;
--   Guided/Source generateRecipeSource; Guided/Wizard the steps and the editor of StepReview.
--   `completed` is what `onComplete` was last called with. Upper case is that of ASCII.
-- - Framework: ui/src/components/deploy/FrameworkWizard.tsx. `press_next` is handleNext up to its
--   `await`, `generation_done` the rest, which runs when the server answers or fails.
-- - DeployProgress: ui/src/components/deploy/DeployProgress.tsx. `after_event` is what a line, an end or
--   an error of the stream, the timer, or the answer to a poll does. `set_final_status` has what the
--   change of the status leads to: the effect that holds the stream runs again.
-- - DeployWizard: ui/src/components/deploy/DeployWizard.tsx. A handler that awaits an answer is split
--   at its `await`; the answers come in any order. DeployWizard/Outcome has it on DeployProgress.
-- - Imports: ui/src/components/deploy/ComposeImport.tsx and GitHubImport.tsx. An event is an action of the
--   user, under the condition under which its control is shown, or an answer of the server. The
--   expression for the address of a repository is a function on character codes.
-- - Monitoring: groupPodsByApp of ui/src/pages/MonitoringPage.tsx, and the panels AppHealth.tsx and
--   AlertBadge.tsx of ui/src/components/monitoring. Sorting is by insertion, which like the source's
--   keeps the order of equals.
--   Monitoring/Chart has timeLabels of MetricsChart.tsx in the same folder; the text of a time is an
--   argument. Monitoring/Polling has the fetches of MonitoringPage.tsx, its interval and its visibility.
-- - Overview: fetchData of ui/src/pages/OverviewPage.tsx and the numbers that it shows. A call is a Flight,
--   which says what it waits for; `landed` is what an answer does, up to the next `await`.
-- - Applications: buildAppSummaries of ui/src/pages/ApplicationsPage.tsx and parseReadyFraction of
--   ApplicationDetailPage.tsx. A number that may be NaN is an Option.
-- - Deployments: ui/src/pages/DeploymentsPage.tsx, its filters, counts and buttons; Deployments/Page has
--   the state and the requests. A request carries the team for which it was made; answers come in any
--   order. Deployments/Statuses has it on the statuses that the server and the operator write.
-- - Marketplace: ui/src/components/marketplace/RecipeCatalog.tsx. `set_filters` has what a change of the
--   category or of the text leads to: the effect that fetches the recipes runs again.
-- - Format: ui/src/lib/format.ts, with the times of two pages.
-- - Session: `request` of ui/src/api/client.ts, ui/src/context/AuthContext.tsx and
--   ClusterContext.tsx. What `fetch` answers is an argument; answers come in any order.
--
-- All functions are structurally recursive but two: the digits of a number in Prelude/Text, whose fuel is
-- the number itself, and the places of the labels in Monitoring/Chart, whose fuel is the number of the
-- points, as each round goes on by one at least.
--
-- Not modelled: rendering, the clock (the time is an argument), the network, numbers of floating point such
-- as shares and curves, the drawn estimates of the monitoring page, and the Go server that reads the recipe.
pub mod Prelude
pub mod Interview
pub mod Recommendation
pub mod Recipe
pub mod Order
pub mod Applications
pub mod Builder
pub mod ClusterData
pub mod DeployError
pub mod DeployProgress
pub mod DeployWizard
pub mod Deployments
pub mod Format
pub mod Framework
pub mod Guided
pub mod Imports
pub mod Marketplace
pub mod Monitoring
pub mod Networking
pub mod Overview
pub mod Session
pub mod Terminal
