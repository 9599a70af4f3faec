-- ===== src/Plan.antt =====
-- app/proxy_apply_plan.py and app/proxy_apply_attestation.py: what a change of the configuration needs,
-- and the evidence on which a plan may act.
pub mod Json
pub mod Config
pub mod Change
pub mod Accept
pub mod Action
pub mod Receipts
pub mod Confirmation
pub mod Difference
pub mod Shape
mod Tests
pub mod Untouched
pub mod Composition
pub mod History
