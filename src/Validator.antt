-- ===== src/Validator.antt =====
-- `ValidateSyllableState` of src/core/engine/PhonotacticsValidator.cpp: whether the typed states
-- make a Vietnamese syllable, or a prefix of one.
mod Consonants
mod Nucleus
mod Decomposition
mod Syllable
mod Initial
mod Soundness
mod Marks
unfoldable pub use Consonants.*
unfoldable pub use Nucleus.*
unfoldable pub use Decomposition.*
unfoldable pub use Syllable.*
unfoldable pub use Initial.*
unfoldable pub use Soundness.*
unfoldable pub use Marks.*
