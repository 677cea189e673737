-- ===== src/Model.antt =====
-- internal/syncmodel/model.go: constants, records, and the normal form of the sync settings.
mod Accounts
mod Files
mod Store
pub mod Settings
pub use Accounts.*
pub use Files.*
pub use Store.*
