-- ===== src/Quota.antt =====
-- internal/quota/service.go: the snapshot cache, the guardrail holds and the quota decision.
pub mod Windows
pub mod Decide
pub mod Service
pub mod Tests
