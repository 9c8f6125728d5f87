-- ===== src/Runtime.antt =====
-- The dataplane's accounts (app/dataplane/account, app/dataplane/shared/enums.py).
pub mod Slot
pub mod Table
pub mod Feedback
pub mod Selector
pub mod Directory
pub mod Sync
