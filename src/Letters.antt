-- ===== src/Letters.antt =====
-- Vietnamese letters: the tables of src/core/engine/VietnameseTables.h, the composition of a
-- character from its state (`TypingEngine::Compose`) and the way back (`DecomposeVietChar`).
mod Case
mod Tables
mod Compose
mod Decompose
mod CaseLaws
mod Composed
mod RoundTrip
unfoldable pub use Case.*
unfoldable pub use Tables.*
unfoldable pub use Compose.*
unfoldable pub use Decompose.*
unfoldable pub use CaseLaws.*
unfoldable pub use Composed.*
unfoldable pub use RoundTrip.*
