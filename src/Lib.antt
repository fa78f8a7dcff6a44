-- ===== src/Lib.antt =====
-- NexusKey, the core of a Vietnamese input method. The user's keys go to `TypingEngine`, which keeps
-- a buffer of character states, a base letter with a modifier and a tone each, and renders it as
-- text. Most files of the repository that are modelled stand in src/core/engine.
--
-- The parts and their files:
--   Action      TypingAction.h: the vocabulary of actions, and the classification of a key.
--   State       `CharState`, `Modifier` and `Tone` of TypingEngine.h.
--   Letters     VietnameseTables.h, `TypingEngine::Compose` and `DecomposeVietChar`.
--   Phonology   VietnamesePhonologyData.h and Phonotactics.cpp: vowel keys, finals, the position of
--               the tone, and syllable checks on text; the vowel table of PhonotacticsValidator.cpp.
--   Validator   PhonotacticsValidator.cpp: `ValidateSyllableState` on the buffer.
--   English     EnglishProtection.h: whether the user seems to type English.
--   Helpers     EngineHelpers.h: spell exclusions, the stroke target, auto restore.
--   Config      the fields of src/core/config/TypingConfig.h that the engine reads.
--   Engine      TypingEngine.cpp. Core has the record of the engine's fields; ToneTarget and Relocate
--               place the tone; Tone is the tone state machine; Edit has Backspace, Commit and
--               SeedFromText; Modify has the stroke, the inserted letters and `FinalizeRegularChar`;
--               Speculate tries a modifier out; Circumflex, Horn with HornScan, and Vni have those of the
--               other modifiers, Modifier their dispatch, and Quick the quick consonants; PushChar
--               is the entry of every key. Rules is the registry of src/core/engine/rule. Growth
--               and the modules named Laws, Lengths, Parity, Plain, Untouched, Letterwise, Escape, Escaped
--               and Gates have proofs.
--   AutoCap     src/core/AutoCapStateTransition.h and AutoCapDecision.h, with the use of the first
--               in src/app/system/HookEngine.cpp. Context and Seqlock are the anchor of
--               src/core/ipc/SharedState.h: what it says of a text, and its sequence lock; Retries has proofs.
--   Macro       src/core/MacroCase.cpp, what a macro erases and types, and MacroPrefix.h.
--   Converter   CodeTableConverter.cpp: the legacy code tables, encoding and decoding. Tables has the
--               maps, Reverse the reverse maps and the decoding; Pairs and Coded say why pairs of
--               units are read back, RoundTrip and Tcvn3 that texts are. CaseText has the other
--               operations on texts, Diacritics is on one of them.
--   Decisions   the decisions around the engine in headers of src/core, DigitLedWordDecision.h,
--               CommitUndoExemption.h, FormulaSegmentDecision.h, CjkSwitchDecision.h and
--               PerAppModeDecision.h, and the table of src/core/SmartSwitchManager.cpp. Exemption has the
--               use of the second in src/app/system/HookEngine.cpp.
--   Hotkeys     src/core/hotkey/HotkeyRegistry.cpp. Toml is what it uses of tomlplusplus.
--   Hook        parts of src/app/system. Mailbox is HookCommandMailbox.cpp with the runs of its
--               threads, Hijack is HookHijackDetector.cpp, Commit is CommitState.h, and Burst is
--               ReinstallBurstScheduler.cpp; Wakeups, Liveness and Ghosts have proofs.
--   Base, Scan  shared names, and the search loops of the source; Tests has concrete inputs.
--
-- A member function that changes the engine is a function from an engine to an engine, with the
-- Boolean that it returns beside it. Names are those of the source in lower case with underscores.
-- Characters, keys and indices are natural numbers. An index of `SIZE_MAX` and a table index of -1
-- are `none`. Reads out of range, which the source does not make, give a blank state. The loops are
-- structural recursion on the list or on the number of rounds left, so they need no fuel. The
-- functions `towlower`, `towupper` and `iswupper` of the C library are the parameter `Ctype`, and
-- `FollowsUnicode` says what the engine relies on; for the capitals of ĩ and ũ, which are left to
-- `towlower`, that depends on the locale.
--
-- `PushChar` records the key, asks the rules of the first phase, classifies the key, asks those of the
-- second, and otherwise appends the key as a letter. A rule gets the engine and gives a new one. The
-- text before the caret is a list from the caret backwards.
--
-- The hook thread and the threads that post commands to it are a step relation: a step is one atomic
-- operation, and a run any order of steps, as the sequential consistency of the operations allows.
-- So are the writer and the reader of the anchor.
-- Callbacks, the clock and tomlplusplus are inputs or parameters; `IsToml` says what the registry of
-- hotkeys relies on. A map of the C++ library is a list of entries or a function.
--
-- Not modelled: the labels of hotkeys; the mapping of shared memory, the storage of the settings
-- and the pipeline in front of the engine; the rest of the application, which wraps the operating
-- system.
pub mod Base
pub mod Scan
pub mod Action
pub mod State
pub mod Letters
pub mod Phonology
pub mod Validator
pub mod Config
pub mod English
pub mod Helpers
pub mod Engine
pub mod AutoCap
pub mod Macro
pub mod Converter
pub mod Hotkeys
pub mod Decisions
pub mod Hook
pub mod Tests
