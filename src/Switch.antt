-- ===== src/Switch.antt =====
-- app/youtube_failover_transaction.py: the file that records a change of the YouTube key.
pub mod Letters
pub mod Record
pub mod Normal
pub mod Phases
mod Tests
