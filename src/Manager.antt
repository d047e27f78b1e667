-- ===== src/Manager.antt =====
-- airstore/manager: the services over the database and the storage nodes.
pub mod Env
pub mod Messages
pub mod Recovery
pub mod Reconcile
pub mod Audit
pub mod Upload
pub mod Download
pub mod Monitor
pub mod Handlers
pub mod Reports
pub mod Store
pub mod Roundtrip
pub mod Steps
