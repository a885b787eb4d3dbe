-- ===== src/Order/Navigation.antt =====
-- The three steps of OrderWizard.tsx: picking something to run, customizing it, and reviewing the
-- recipe.
pub mod Range
pub mod Review
mod Tests
use mozza.Prelude.{
  ℕ, max, ◌-◌, Bool, true, false, not, ◌&&◌, ◌||◌, Option, none, some, List, [], ◌∷◌, ◌++◌, map,
  String, template, any, set, get_elem?, ◌==◌, nat_eq, string_eq, if◌then◌else◌, replace_all,
}
use mozza.Interview.{
  WizardState, WizardTarget, kitchen, ServiceInterviewState, FastLaneSource, alias, github,
  ResourceSize, medium, create_default_service_state,
}
use mozza.Order.Slices.{has_image, Action, perform, update_service}
use mozza.Order.Source.{build_recipe_source}

pub record ImageAlias : Type 0 where
  pub id : String
  pub name : String
  pub image_ref : String

-- What the wizard reads of a template.
pub record Template : Type 0 where
  pub id : String
  pub name : String
  pub source : String

-- The wizard's state. An entry of `template_vars` is a variable that the user has changed.
pub record Order : Type 0 where
  pub step : ℕ
  pub wizard : WizardState
  pub selected_alias : Option ImageAlias
  pub selected_template : Option Template
  pub imported_recipe : String
  pub template_vars : List (String × String)
  pub app_name : String
  pub recipe_source : String
  pub editing_recipe : Bool
  pub edited_recipe : String

abbrev pub first_wizard : WizardState
first_wizard = record {
  services = create_default_service_state ∷ [];
  active_service_index = 0;
  current_step = 1;
  target = kitchen;
  cluster_id = "";
  fast_lane = true;
  selected_combo = none;
  source = alias;
  selected_template_id = none;
  selected_alias_id = none;
  resource_size = medium;
}

pub initial : Order
initial = record {
  step = 1;
  wizard = first_wizard;
  selected_alias = none;
  selected_template = none;
  imported_recipe = "";
  template_vars = [];
  app_name = "";
  recipe_source = "";
  editing_recipe = false;
  edited_recipe = "";
}

-- `prev?.id === alias.id ? null : alias`
abbrev toggled : Option ImageAlias → ImageAlias → Option ImageAlias
toggled none a = some a
toggled (some prev) a = if prev.id == a.id then none else some a

pub handle_alias_select : ImageAlias → Order → Order
handle_alias_select a o = record o {
  selected_alias = toggled o.selected_alias a;
  selected_template = none;
  imported_recipe = "";
  app_name = a.name;
}

pub handle_template_select : Template → Order → Order
handle_template_select tpl o = record o {
  selected_template = some tpl;
  selected_alias = none;
  imported_recipe = "";
  app_name = tpl.name;
}

pub handle_imported_recipe : String → Order → Order
handle_imported_recipe recipe o = record o {
  imported_recipe = recipe;
  selected_alias = none;
  selected_template = none;
  app_name = "imported-app";
}

pub handle_framework_complete : String → String → Order → Order
handle_framework_complete name recipe o = record o {
  imported_recipe = recipe;
  app_name = name;
  recipe_source = recipe;
  edited_recipe = recipe;
  step = 3;
}

-- The end of `handleCreateAlias`, when the new alias is found in the list.
pub alias_created : ImageAlias → Order → Order
alias_created a o = record o { selected_alias = some a; app_name = a.name }

-- `x !== null`
abbrev pub is_set {ℓ} : {A : Type ℓ} → Option A → Bool
is_set none = false
is_set (some x) = true

abbrev pub has_selection : Order → Bool
has_selection o =
    is_set o.selected_alias || is_set o.selected_template || not (o.imported_recipe == "")

pub can_next : Order → Bool
can_next o =
    if o.step == 1
    then has_selection o
    else if o.step == 2
    then is_set o.selected_template || any has_image o.wizard.services
    else o.step == 3

abbrev take_alias : ImageAlias → WizardState → WizardState
take_alias a w = elim (get_elem? w.services w.active_service_index) [
  | none ↦ w
  | some svc ↦ record w {
    services =
        set w.services w.active_service_index
          (record svc { alias_name = a.name; alias_image = a.image_ref; service_name = a.name });
    source = alias;
    selected_alias_id = some a.id;
  }
]

abbrev take_imported : String → WizardState → WizardState
take_imported app_name w = elim (get_elem? w.services 0) [
  | none ↦ w
  | some svc ↦ record w {
    services = set w.services 0 (record svc { alias_name = app_name; alias_image = "" });
    source = github;
  }
]

-- The state of the services is prepared from the selection.
pub prepared : Order → WizardState
prepared o = elim o.selected_alias [
  | some a ↦ take_alias a o.wizard
  | none ↦ elim o.selected_template [
    | some tpl ↦ record o.wizard {
      source = FastLaneSource.template;
      selected_template_id = some tpl.id;
    }
    | none ↦ if o.imported_recipe == "" then o.wizard else take_imported o.app_name o.wizard
  ]
]

-- The variables of a template, each in the place of `{key}`.
abbrev pub substituted : List (String × String) → String → String
substituted [] source = source
substituted ((key, val) ∷ vars) source =
    substituted vars (replace_all (template ("{" ∷ key ∷ "}" ∷ [])) val source)

abbrev pub template_source : Option Template → String
template_source none = ""
template_source (some tpl) = tpl.source

-- The recipe that is shown for review.
pub recipe_of : Order → String
recipe_of o =
    if not (template_source o.selected_template == "")
    then substituted o.template_vars (template_source o.selected_template)
    else if not (o.imported_recipe == "")
    then o.imported_recipe
    else build_recipe_source o.app_name o.wizard

-- `goNext`, by the button that `canNext` enables.
pub go_next : Order → Order
unfolding prepared recipe_of
go_next o =
    if o.step == 1
    then record o { wizard = prepared o; step = 2 }
    else if o.step == 2
    then record o { recipe_source = recipe_of o; edited_recipe = recipe_of o; step = 3 }
    else o

pub go_back : Order → Order
go_back o = record o { step = max (o.step - 1) 1 }

-- What `onComplete` is called with: the name and the recipe.
pub place_order : Order → String × String
place_order o = (o.app_name, if o.editing_recipe then o.edited_recipe else o.recipe_source)

-- The button "Edit", which becomes "Reset".
pub toggle_editing : Order → Order
toggle_editing o =
    if o.editing_recipe
    then record o { edited_recipe = o.recipe_source; editing_recipe = false }
    else record o { editing_recipe = true }
