-- ===== src/Phonology.antt =====
-- Vietnamese phonology: the rule data, tone placement and syllable checks on rendered text
-- (src/core/engine/Phonotactics.cpp), and the validator of typed states
-- (src/core/engine/PhonotacticsValidator.cpp).
pub mod Keys
pub mod VowelTable
pub mod Lexicon
pub mod Syllable
pub mod TonePosition
pub mod Placement
pub mod Scans
pub mod Parsing
pub mod Agreement
