-- ===== src/AutoCap.antt =====
-- The automatic capitals: src/core/AutoCapStateTransition.h and src/core/AutoCapDecision.h, and the use
-- that src/app/system/HookEngine.cpp makes of the first.
use nexus_key.Base.{
  ℕ, zero, suc, Bool, true, false, not, ◌&&◌, ◌||◌, ◌==◌, leb, if◌then◌else◌, Option, none, some,
  List, [], ◌∷◌,
}
pub mod Agreement
pub mod Context
pub mod Retries
pub mod Seqlock

pub data AutoCapState : Type 0 where
  idle after_punct ready_to_capitalize : AutoCapState

abbrev pub is_ready : AutoCapState → Bool
is_ready ready_to_capitalize = true
is_ready _ = false

abbrev pub is_after_punct : AutoCapState → Bool
is_after_punct after_punct = true
is_after_punct _ = false

-- The virtual keys of the rule.
abbrev pub vk_return : ℕ
vk_return = 0x0D

abbrev pub vk_space : ℕ
vk_space = 0x20

abbrev pub vk_oem_period : ℕ
vk_oem_period = 0xBE

abbrev pub vk_oem_slash : ℕ
vk_oem_slash = 0xBF

abbrev pub vk_1 : ℕ
vk_1 = 0x31

abbrev pub is_letter_vk : ℕ → Bool
is_letter_vk vk = leb 0x41 vk && leb vk 0x5A

-- `ComputeAutoCapStateTransition`.
unfoldable pub compute_auto_cap_state_transition :
    AutoCapState → ℕ → Bool → Bool → Bool → Bool → AutoCapState
compute_auto_cap_state_transition current vk shift ctrl alt win =
    if ctrl || alt || win
    then current
    else if vk == vk_oem_period || vk == vk_oem_slash && shift || vk == vk_1 && shift
    then after_punct
    else if vk == vk_space && (is_after_punct current || is_ready current)
    then ready_to_capitalize
    else if vk == vk_return
    then ready_to_capitalize
    else if is_letter_vk vk
    then (if is_ready current then current else idle)
    else idle

-- What the anchor of the document says: `isSentenceStart` and `isLineStart`.
pub record Anchor : Type 0 where
  pub is_sentence_start : Bool
  pub is_line_start : Bool

-- The part of `HandleAlphaKey` on automatic capitals: whether the letter is capitalized, and the next
-- state. The anchor is there if a text service publishes one.
unfoldable pub alpha_auto_cap : Bool → Bool → Option Anchor → AutoCapState → Bool × AutoCapState
alpha_auto_cap auto_caps is_empty anchor s =
    let pending = is_ready s in
    if auto_caps && is_empty
    then (elim anchor [
      | some a ↦ (a.is_sentence_start || a.is_line_start, idle)
      | none ↦ (pending, if pending then idle else s)
    ])
    else (false, s)

pub data CapTrigger : Type 0 where
  no_trigger doc_start line_start sentence_end : CapTrigger

abbrev pub is_blank_char : ℕ → Bool
is_blank_char c = c == b' ' || c == 0x09

abbrev pub is_line_end : ℕ → Bool
is_line_end c = c == 0x0A || c == 0x0D

abbrev pub is_sentence_mark : ℕ → Bool
is_sentence_mark c = c == b'.' || c == b'?' || c == b'!'

-- `ClassifyCapTrigger`, which walks back from the caret: the text is given from the caret backwards.
unfoldable pub classify_from : Bool → List ℕ → CapTrigger
classify_from skipped [] = doc_start
classify_from skipped (c ∷ before) =
    let further = classify_from true before in
    if is_blank_char c
    then further
    else if is_line_end c
    then line_start
    else if is_sentence_mark c && skipped
    then sentence_end
    else no_trigger

unfoldable pub classify_cap_trigger : List ℕ → CapTrigger
classify_cap_trigger before = classify_from false before

abbrev pub is_trigger : CapTrigger → Bool
is_trigger no_trigger = false
is_trigger _ = true

unfoldable pub compute_should_auto_cap : List ℕ → Bool
compute_should_auto_cap before = is_trigger (classify_cap_trigger before)
