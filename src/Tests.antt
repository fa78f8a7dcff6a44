-- ===== src/Tests.antt =====
-- The theorems at concrete inputs.
pub mod Fixtures
mod Text
mod Validity
mod Engines
mod Typing
mod Capitals
mod Macros
mod Hooks
mod Converters
