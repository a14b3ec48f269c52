-- ===== src/Store.antt =====
-- internal/store: the JSON documents that outlive the process.
pub mod Disk
pub mod Runtime
pub mod History
pub mod Audit
pub mod Configs
pub mod Tests
