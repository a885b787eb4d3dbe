-- ===== src/Marketplace/Retried.antt =====
-- ui/src/components/marketplace/RecipeCatalog.tsx: the button of an error, and the lists that are shown.
use mozza.Prelude.{
  ◌+◌, ◌≡◌, refl, Bool, true, false, not, List, [], ◌∷◌, arith, length, filter, string_eq, eq_refl,
  Bool-cases, inl, inr,
}
use mozza.Recipe.{given}
use mozza.Marketplace.{
  Catalog, Listed, set_filters, retry, press_retry, catalog_event, show_featured, shown_lists,
  is_featured,
}

-- Retry takes the error away, and asks the server nothing: no other part of the state changes.
pub catalog_event-press_retry :
    (c : Catalog)
    → c.loading ≡ false
    → given c.error ≡ true
    → catalog_event press_retry c ≡ record c { error = "" }
unfolding catalog_event retry set_filters
catalog_event-press_retry c a b =
    ground (arith, eq_refl c.active_category, eq_refl c.debounced_query)

length-split :
    (p : Listed → Bool) (ts : List Listed)
    → length (filter p ts) + length (filter (λ t. not (p t)) ts) ≡ length ts
length-split p [] = refl
length-split p (t ∷ ts) = ground (arith, length-split p ts)

-- The two lists that are shown have together as many recipes as the answer: none is lost and none is
-- shown twice.
pub length-shown_lists :
    (c : Catalog) → length (shown_lists c).0 + length (shown_lists c).1 ≡ length c.templates
length-shown_lists c = elim (Bool-cases (show_featured c)) [
  | inl y ↦ rw y (length-split is_featured c.templates)
  | inr n ↦ rw n (omega arith)
]
