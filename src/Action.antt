-- ===== src/Action.antt =====
-- The vocabulary of user actions: src/core/engine/TypingAction.h. `TypingAction::None` is `literal`;
-- a key is its code unit.
mod Classify
mod Names
mod Classes
mod Spelling
unfoldable pub use Classify.*
unfoldable pub use Names.*
unfoldable pub use Classes.*
unfoldable pub use Spelling.*
