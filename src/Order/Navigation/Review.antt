-- ===== src/Order/Navigation/Review.antt =====
-- What the second step of OrderWizard.tsx leads to, for imported recipes and for templates.
use mozza.Prelude.{◌≡◌, ◌≢◌, true, false, none, some, [], ◌∷◌, arith, eq_iff, nat_eq, string_eq}
use mozza.Interview.{ServiceInterviewState}
use mozza.Order.Navigation.{Order, Template, can_next, prepared, recipe_of, go_next}

-- An imported recipe cannot be ordered with the button "Next": in the first step, with one
-- service and no selection but the import, the user can go on, but not from the second step.
pub can_next-imported :
    (o : Order) (s : ServiceInterviewState)
    → o.step ≡ 1
    → o.wizard.services ≡ s ∷ []
    → o.selected_alias ≡ none
    → o.selected_template ≡ none
    → o.imported_recipe ≢ ""
    → (can_next o ≡ true) × (can_next (go_next o) ≡ false)
unfolding can_next go_next prepared
can_next-imported o s picking one no_alias no_template imported =
    (ground (arith, eq_iff o.imported_recipe ""), ground (arith, eq_iff o.imported_recipe ""))

-- The variables of a template that the user leaves at their defaults are not filled in: in the
-- second step, with a template whose text is not empty and no variable changed, the recipe for
-- review is that text as it stands.
pub go_next-defaults :
    (o : Order) (tpl : Template)
    → o.step ≡ 2
    → o.selected_template ≡ some tpl
    → tpl.source ≢ ""
    → o.template_vars ≡ []
    → (go_next o).recipe_source ≡ tpl.source
unfolding go_next recipe_of
go_next-defaults o tpl customizing chosen given unchanged = ground (arith, eq_iff tpl.source "")
