-- ===== src/Coordinator.antt =====
-- app/proxy_apply_coordinator.py, class `ApplyCoordinator`: arbitration between background and
-- manual changes of the proxy configuration. `World` is what one thread of one process sees of it,
-- `Exec` an action on it, `Intent` the operations under intent.lock, `Scopes` the context managers.
pub mod World
pub mod Exec
pub mod Intents
pub mod Scopes
pub mod Laws
pub mod Staleness
pub mod ScopeRules
pub mod Balance
pub mod Lifecycle
mod Tests
