-- ===== src/Catalog.antt =====
-- The models that the API offers (app/control/model) and the reservation of an account for one of them
-- (app/products/_account_selection.py).
pub mod Spec
pub mod Registry
pub mod Selection
