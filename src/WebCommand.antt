-- ===== src/WebCommand.antt =====
-- app/web_command_state.py: the state of the service command that the web page shows.
pub mod State
pub mod Progress
pub mod Matching
pub mod Rendering
mod Tests
