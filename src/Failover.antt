-- ===== src/Failover.antt =====
-- app/failover_services.py: when a failing route may change its key, and how often.
pub mod Watchdog
pub mod Gate
pub mod Cooldown
pub mod Streak
pub mod Failing
pub mod Recovery
pub mod Budget
mod Tests
