-- ===== src/Events.antt =====
-- app/event_history.py: the history of events, and the time that an update is expected to take.
pub mod Log
pub mod Bounds
pub mod Keeping
pub mod Repeats
pub mod Duration
pub mod Estimate
mod Tests
