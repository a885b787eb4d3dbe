-- ===== src/Order.antt =====
-- ui/src/components/deploy/OrderWizard.tsx: the wizard that turns an order into a recipe.
pub mod Slices
pub mod Source
pub mod Navigation
