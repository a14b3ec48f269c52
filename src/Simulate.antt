-- ===== src/Simulate.antt =====
-- internal/simulate/service.go: what a schedule would make available in a day.
pub mod Intervals
pub mod Cycles
pub mod Tests
