-- ===== src/Relay.antt =====
-- internal/srtrelay: the data that daemon and workers share, the store, the audit log, and the manager of the
-- workers.
pub mod Models
pub mod Names
pub mod Texts
pub mod Normalize
pub mod Clients
pub mod Store
pub mod Credentials
pub mod Sessions
pub mod Events
pub mod Consistent
pub mod History
pub mod Audit
pub mod Manager
