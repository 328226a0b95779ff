-- ===== src/Metadata.antt =====
-- src/issues.rs, prs.rs, incidents.rs: issues, pull requests and incidents. A record of each is
-- replaced as a whole; what the three modules share stands in Limits (the checks of single fields,
-- which the three files repeat word for word) and in Events (the append-only list of events).
pub mod Toml
pub mod Limits
pub mod Events
pub mod Issues
pub mod Prs
pub mod Incidents
pub mod Examples
