-- ===== src/Api.antt =====
-- backend/api: what the HTTP handlers do with the components below, and the status and body fields
-- that they answer with. Header lines other than CORS, spans and log lines are left out.
pub mod Snapshot
pub mod Merge
pub mod Abstract
pub mod Honest
pub mod Handlers
pub mod Parsing
pub mod Known
pub mod Answers
pub mod Server
pub mod Program
pub mod Middleware
pub mod Upgrades
pub mod Stamped
pub mod Writes
pub mod Charges
pub mod Sold
