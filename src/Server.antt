-- ===== src/Server.antt =====
-- internal/server/http.go: the web console and the sync API, around the store.
pub mod Site
pub mod Console
pub mod Sync
pub mod Clients
pub mod Session
mod Tests
