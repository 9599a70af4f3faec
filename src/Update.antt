-- ===== src/Update.antt =====
-- app/update_status.py: the status file of an update, and what it changes for the web page and the job.
pub mod Status
pub mod Advance
pub mod Ending
mod Tests
