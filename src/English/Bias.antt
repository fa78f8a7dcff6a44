-- ===== src/English/Bias.antt =====
-- `LanguageBias`, `EnglishProtectionState` and `CheckEnglishBias`.
use nexus_key.Base.{
  ℕ, suc, ◌-◌, Bool, true, false, not, ◌&&◌, ◌||◌, ◌==◌, ltb, leb, if◌then◌else◌, List, length,
}
use nexus_key.State.{CharState, is_vowel, is_d, has_modifier, at, base_at, is_vowel_at}
use nexus_key.Letters.{Ctype}
use nexus_key.English.Patterns.{is_hard_english_start, is_q_without_u, is_hard_english_end}
use nexus_key.English.Structure.{is_invalid_vietnamese_coda}

pub data LanguageBias : Type 0 where
  unknown hard_english soft_english vietnamese : LanguageBias

pub record EnglishProtectionState : Type 0 where
  pub bias : LanguageBias
  pub last_tone_key : ℕ
  pub same_tone_key_count : ℕ

-- `Reset`.
abbrev pub unprotected : EnglishProtectionState
unprotected = record { bias = unknown; last_tone_key = 0; same_tone_key_count = 0 }

abbrev pub is_hard : LanguageBias → Bool
is_hard hard_english = true
is_hard _ = false

abbrev pub is_vietnamese : LanguageBias → Bool
is_vietnamese vietnamese = true
is_vietnamese _ = false

abbrev pub is_unknown : LanguageBias → Bool
is_unknown unknown = true
is_unknown _ = false

unfoldable pub is_valid_vietnamese_y_sequence : Ctype → List CharState → Bool
is_valid_vietnamese_y_sequence ct states =
    let c2 = ct.towlower (base_at states 2) in
    if ltb (length states) 2
    then false
    else if not (ct.towlower (base_at states 0) == b'y')
    then false
    else if base_at states 1 == b'e' && has_modifier (at states 1)
    then (if length states == 2 then true else c2 == b'u' || c2 == b'n' || c2 == b'm' || c2 == b't')
    else false

unfoldable pub check_soft_english_bias : Ctype → List CharState → Bool
check_soft_english_bias ct states =
    let c1 = ct.towlower (base_at states 1) in
    if ltb (length states) 2
    then false
    else if not (ct.towlower (base_at states 0) == b'y')
    then false
    else is_vowel_at states 1
      && (c1 == b'a' || c1 == b'o' || c1 == b'e')
      && not (is_valid_vietnamese_y_sequence ct states)

-- The counter is an `int` that the keys of one word cannot overflow.
unfoldable pub update_tone_insistence : ℕ → EnglishProtectionState → Bool × EnglishProtectionState
update_tone_insistence tone_key p =
    let count = if tone_key == p.last_tone_key then suc p.same_tone_key_count else 1 in
    (leb 2 count, record p { last_tone_key = tone_key; same_tone_key_count = count })

-- The first two hard rejects: the start cluster, and the final consonant after a vowel.
unfoldable pub is_hard_edge : Ctype → List CharState → Bool
is_hard_edge ct states =
    let count = length states in
    let last = at states (count - 1) in
    leb 2 count
      && not (is_vowel_at states 0)
      && not (is_vowel_at states 1)
      && not (is_d (at states 0))
      && (is_hard_english_start ct (base_at states 0) (base_at states 1)
          || is_q_without_u ct (base_at states 0) (base_at states 1))
    || leb 3 count
      && not (is_vowel last)
      && not (is_d last)
      && is_vowel_at states (count - 2)
      && is_hard_english_end ct last.base

unfoldable pub check_english_bias :
    Ctype → List CharState → EnglishProtectionState → EnglishProtectionState
check_english_bias ct states p =
    if is_vietnamese p.bias
    then p
    else if is_hard_edge ct states
    then record p { bias = hard_english }
    else if is_invalid_vietnamese_coda ct states
    then record p { bias = hard_english }
    else if is_unknown p.bias && check_soft_english_bias ct states
    then record p { bias = soft_english }
    else p
