-- ===== src/Validator/Soundness.antt =====
-- What a buffer that is found `Valid` looks like.
use Prim.Native.Nat.{bit_and}
use nexus_key.Base.{ℕ, ◌≤◌, ◌≡◌, ◌≢◌, ◌⊎◌, Bool, true, some, List, [], ◌++◌, length, drop, all}
use nexus_key.State.{CharState, is_vowel}
use nexus_key.Phonology.Keys.{get_allowed_finals}
use nexus_key.Phonology.VowelTable.{find_vowel}
use nexus_key.Validator.Consonants.{
  parse_final_consonant, final_consonant_bit, is_stop_final, get_tone,
}
use nexus_key.Validator.Nucleus.{nucleus_key}
use nexus_key.Validator.Decomposition.{valid, is_stop_tone, validate_decomposition}
use nexus_key.Validator.Initial.{IsInitial}

-- A final consonant that the nucleus allows, under a tone that the final allows.
pub record IsFinal (states tail : List CharState) (key : ℕ) : Type 0 where
  pub whole : parse_final_consonant tail ≡ length tail
  pub allowed :
      (get_allowed_finals key ≡ 0)
      ⊎ (final_consonant_bit tail (parse_final_consonant tail) ≡ 0)
      ⊎ (bit_and (get_allowed_finals key) (final_consonant_bit tail (parse_final_consonant tail))
          ≢ 0)
  pub tone :
      is_stop_final tail (parse_final_consonant tail) ≡ true → is_stop_tone (get_tone states) ≡ true

-- After an initial consonant of `n` states stands a nucleus of the table, and after that nothing,
-- or, where the table allows it, a final consonant.
pub record IsSyllable (states : List CharState) (n : ℕ) : Type 0 where
  pub vowels : List CharState
  pub tail : List CharState
  pub key : ℕ
  pub can_end : Bool
  pub parts : drop n states ≡ vowels ++ tail
  pub all_vowels : all is_vowel vowels ≡ true
  pub encoded : nucleus_key vowels ≡ some key
  pub in_table : find_vowel key ≡ some can_end
  pub final : (tail ≡ []) ⊎ ((can_end ≡ true) × IsFinal states tail key)

-- Some reading of the initial consonant, of at most three states, is found valid.
abbrev HasReading : Bool → List CharState → Type 0
HasReading zwjf states =
    (n : ℕ) × (n ≤ 3) × IsInitial zwjf states n × (validate_decomposition states n ≡ valid)
