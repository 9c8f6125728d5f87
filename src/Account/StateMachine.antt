-- ===== src/Account/StateMachine.antt =====
-- The life of an account (app/control/account/state_machine.py).
pub mod Events
pub mod Effects
pub mod Status
pub mod Apply
pub mod Inversion
pub mod Cooldown
pub mod Selection
pub mod Lifecycle
pub mod Causes
pub mod WellTyped
pub mod Strikes
