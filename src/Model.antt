-- ===== src/Model.antt =====
-- internal/model/types.go and the types of contract/ that its records are made of.
mod Contract
mod Metadata
mod Records
pub use Contract.*
pub use Metadata.*
pub use Records.*
