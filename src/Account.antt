-- ===== src/Account.antt =====
-- The control plane's accounts (app/control/account).
pub mod Models
pub mod Normalize
pub mod Quota
pub mod StateMachine
