-- ===== src/Main.antt =====
-- backend/main.go: the process, from its start to its shutdown, beside serving requests.
pub mod Feed
pub mod Fanout
pub mod Sale
pub mod Startup
pub mod Connecting
pub mod Boot
pub mod Life
pub mod Wiring
