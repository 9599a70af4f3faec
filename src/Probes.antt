-- ===== src/Probes.antt =====
-- app/pool_probe_resume.py: the keys that an interrupted probe still has to check.
pub mod Resume
pub mod Tasks
mod Tests
pub mod Saving
