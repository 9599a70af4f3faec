-- ===== src/Routes.antt =====
-- app/transparent_route_policy.py: the rules that the lists of the routes ask for, and the owner of
-- each rule.
pub mod Strings
pub mod Entries
pub mod Masks
pub mod Trie
pub mod Overrides
pub mod Hosts
pub mod Paths
pub mod Places
pub mod Ownership
pub mod Refinement
pub mod Outcome
pub mod Services
mod Tests
