-- ===== src/Jobs.antt =====
-- app/telegram_jobs.py: the file of the service command that runs in the background.
pub mod Start
pub mod Single
mod Tests
