-- ===== src/Modes.antt =====
-- app/app_runtime_mode.py: the program's mode, and what a change of it sets off.
pub mod Setting
pub mod Effects
mod Tests
