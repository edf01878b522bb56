-- ===== src/Core.antt =====
-- pkg/core: the data that the parser makes, the backends keep and the export reads.
pub mod Dynamic
pub mod Types
pub mod Entities
pub mod Events
pub mod Telemetry
pub mod Result
pub use Dynamic.*
pub use Types.*
pub use Entities.*
pub use Events.*
pub use Telemetry.*
pub use Result.{Error, Outcome, nil_error, Exec}
