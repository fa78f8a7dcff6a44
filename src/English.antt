-- ===== src/English.antt =====
-- English protection: src/core/engine/EnglishProtection.h.
mod Patterns
mod Structure
mod Bias
mod BiasLaws
unfoldable pub use Patterns.*
unfoldable pub use Structure.*
unfoldable pub use Bias.*
unfoldable pub use BiasLaws.*
