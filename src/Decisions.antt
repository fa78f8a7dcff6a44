-- ===== src/Decisions.antt =====
-- The decisions around the engine, each in a header of src/core of its own: DigitLedWordDecision.h,
-- CommitUndoExemption.h, FormulaSegmentDecision.h, CjkSwitchDecision.h and PerAppModeDecision.h.
pub mod DigitLed
pub mod CommitUndo
pub mod Exemption
pub mod Formula
pub mod Cjk
pub mod SmartSwitch
pub mod SmartSwitchLaws
