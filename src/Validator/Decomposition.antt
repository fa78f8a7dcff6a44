-- ===== src/Validator/Decomposition.antt =====
-- `ValidateDecomposition`: one way to part the buffer into initial, nucleus and final.
use Prim.Native.Nat.{bit_and}
use nexus_key.Base.{
  ℕ, Bool, not, ◌&&◌, ◌||◌, ◌==◌, ltb, leb, if◌then◌else◌, none, some, List, [], ◌∷◌, length, drop,
}
use nexus_key.State.{CharState, Tone, tone_value, is_vowel, at, base_at}
use nexus_key.Phonology.Keys.{get_allowed_finals}
use nexus_key.Phonology.VowelTable.{find_vowel}
use nexus_key.Validator.Consonants.{
  parse_final_consonant, final_consonant_bit, is_stop_final, get_tone,
}
use nexus_key.Validator.Nucleus.{mod_ordinal, nucleus_key, is_vowel_prefix, try_modified_vowels}

pub data SyllableState : Type 0 where
  valid valid_prefix invalid : SyllableState

-- The leading vowels, and the rest.
unfoldable pub span_vowels : List CharState → List CharState × List CharState
span_vowels [] = ([], [])
span_vowels (s ∷ states) =
    let rest = span_vowels states in if is_vowel s then (s ∷ rest.0, rest.1) else ([], s ∷ states)

-- `k` ends a syllable after ă alone.
unfoldable pub is_k_allowed : List CharState → Bool
is_k_allowed vowels =
    length vowels == 1 && base_at vowels 0 == b'a' && mod_ordinal (at vowels 0).mod_ == 2

-- Stop finals take no tone, acute or dot.
unfoldable pub is_stop_tone : Tone → Bool
is_stop_tone t = tone_value t == 0 || tone_value t == 1 || tone_value t == 5

-- The checks of a final consonant after a nucleus that may have one.
unfoldable pub validate_final : List CharState → List CharState → List CharState → ℕ → SyllableState
validate_final states vowels tail key =
    let final_len = parse_final_consonant tail in
    let allowed = get_allowed_finals key in
    let bit = final_consonant_bit tail final_len in
    if final_len == 0
    then invalid
    else if ltb final_len (length tail)
    then invalid
    else if final_len == 1 && base_at tail 0 == b'k' && not (is_k_allowed vowels)
    then invalid
    else if not (allowed == 0) && not (bit == 0) && bit_and allowed bit == 0
    then invalid
    else if is_stop_final tail final_len && not (is_stop_tone (get_tone states))
    then invalid
    else valid

abbrev is_complete_final : List CharState → Bool
is_complete_final tail = parse_final_consonant tail == length tail

-- What follows the look-up of the nucleus.
unfoldable pub validate_nucleus :
    List CharState → List CharState → List CharState → ℕ → SyllableState
validate_nucleus states vowels tail key = elim (find_vowel key) [
  | none ↦
      if leb (length vowels) 2 && is_vowel_prefix key (length vowels) && length tail == 0
      then valid_prefix
      else if try_modified_vowels (λ can_end. length tail == 0 || can_end && is_complete_final tail)
          vowels
      then valid_prefix
      else invalid
  | some can_end ↦
      if length tail == 0
      then valid
      else if not can_end
      then (if try_modified_vowels (λ e. e && is_complete_final tail) vowels
          then valid_prefix
          else invalid)
      else validate_final states vowels tail key
]

-- The nucleus and what follows it, after the initial consonant.
unfoldable pub validate_rest : List CharState → List CharState × List CharState → SyllableState
validate_rest states (vowels, tail) = elim (nucleus_key vowels) [
  | none ↦ invalid
  | some key ↦ validate_nucleus states vowels tail key
]

unfoldable pub validate_decomposition : List CharState → ℕ → SyllableState
validate_decomposition states initial_len =
    let rest = drop initial_len states in
    if length rest == 0 then valid_prefix else validate_rest states (span_vowels rest)
