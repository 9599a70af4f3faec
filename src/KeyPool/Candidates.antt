-- ===== src/KeyPool/Candidates.antt =====
-- `failover_candidates` of app/key_pool_store.py: the keys that a failover may try, best first.
pub mod Probe
pub mod Choice
pub mod Tuples
pub mod Order
pub mod Ranking
pub mod Filter
