-- ===== src/KeyPool.antt =====
-- app/key_pool_store.py and the protocol tables of app/protocol_catalog.py: the pools of proxy
-- keys, one list for each protocol, and their file with its last good copy.
pub mod Catalog
pub mod Keys
pub mod Pools
pub mod Repair
pub mod Storage
pub mod CleanLists
pub mod Changes
pub mod Placement
pub mod Recovery
pub mod Subscription
pub mod CurrentKeys
pub mod Classification
pub mod Candidates
mod Tests
