-- ===== src/Owner.antt =====
-- app/youtube_route_owner.py with normalize_route_entry and service_route_entries of
-- app/service_catalog.py: the protocol that YouTube is routed through.
pub mod Entries
pub mod Resolve
pub mod Lead
pub mod Sole
mod Tests
