-- ===== src/Screening.antt =====
-- check_required, record_required and recent_failure of app/failover_services.py: a candidate key is tried
-- on the services of a route, and its failures block it for a time.
pub mod Checks
pub mod Verdicts
pub mod Good
pub mod Passing
pub mod Entries
pub mod Dictionaries
pub mod Recording
pub mod Names
pub mod Blocking
mod Tests
