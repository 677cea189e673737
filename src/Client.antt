-- ===== src/Client.antt =====
-- internal/client: the sync engine of a client, its state file and its calls of the server.
pub mod Local
pub mod Disk
pub mod Memory
pub mod Apply
pub mod Pull
pub mod Push
pub mod Retry
pub mod Names
mod Samples
