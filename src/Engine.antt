-- ===== src/Engine.antt =====
-- `TypingEngine`: src/core/engine/TypingEngine.cpp. The state of the engine is a record, and each
-- member function gives the new state.
pub mod Core
pub mod ToneTarget
pub mod Relocate
pub mod Tone
pub mod Edit
pub mod Modify
pub mod RawKeys
pub mod Escaped
pub mod Escape
pub mod Gates
pub mod TargetLaws
pub mod Letterwise
pub mod EditLaws
pub mod CommitLaws
pub mod SeedLaws
pub mod Speculate
pub mod Circumflex
pub mod HornScan
pub mod Horn
pub mod Vni
pub mod Modifier
pub mod Quick
pub mod Rules
pub mod PushChar
pub mod Lengths
pub mod Growth
pub mod Parity
pub mod RuleLaws
pub mod Untouched
pub mod Plain
pub mod PlainText
