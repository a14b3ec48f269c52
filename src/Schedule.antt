-- ===== src/Schedule.antt =====
-- internal/schedule: the daily plan, and the scheduler that owns every timer.
pub mod LocalTime
pub mod Scheduler
pub mod Tests
