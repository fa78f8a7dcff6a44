-- ===== src/Helpers.antt =====
-- The helper functions of the engine: src/core/engine/EngineHelpers.h.
mod Exclusion
mod Stroke
mod StrokeLaws
mod Vowels
mod Restore
unfoldable pub use Exclusion.*
unfoldable pub use Stroke.*
unfoldable pub use StrokeLaws.*
unfoldable pub use Vowels.*
unfoldable pub use Restore.*
