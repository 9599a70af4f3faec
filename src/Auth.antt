-- ===== src/Auth.antt =====
-- app/telegram_auth_state.py: who may use the bot, and the menu that each chat stands in.
pub mod Identities
pub mod Access
pub mod Menu
pub mod Trimming
pub mod Memory
mod Tests
