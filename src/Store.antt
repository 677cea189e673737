-- ===== src/Store.antt =====
-- internal/server/store.go, one module for each group of its operations.
pub mod Samples
pub mod World
pub mod Keys
pub mod Conflict
pub mod Events
pub mod Chunks
pub mod Version
pub mod Commit
pub mod Delete
pub mod Trash
pub mod Records
pub mod ClientPath
pub mod Accounts
pub mod Devices
pub mod Folders
pub mod Spaces
pub mod Lists
