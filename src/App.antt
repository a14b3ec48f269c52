-- ===== src/App.antt =====
-- internal/app: the runtime that executes preheats and resets, and that replaces the schedule.
pub mod Runtime
pub mod Preheat
pub mod Execute
pub mod Reset
pub mod Settings
pub mod Manual
pub mod Tests
