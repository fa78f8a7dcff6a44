-- ===== src/Tests/Validity.antt =====
-- The theorems on validity at the word tiến.
use nexus_key.Base.{◌≡◌, ◌≢◌, refl, false, arith}
use nexus_key.State.{is_vowel_base, is_vowel, is_d, is_horn, has_modifier, has_tone, is_empty, at}
use nexus_key.Phonology.Keys.{
  is_front_base_vowel, vowel_slot, base_index, key1, key2, key3, vc_pair_rules, find_finals,
  get_allowed_finals,
}
use nexus_key.Phonology.VowelTable.{vowel_table, find_entry, find_vowel}
use nexus_key.Validator.{
  is_initial_letter, parse_initial_consonant, parse_final_consonant, final_consonant_bit,
  is_stop_final, get_tone, is_valid_consonant_prefix, span_vowels, is_k_allowed, is_stop_tone,
  validate_final, validate_nucleus, validate_rest, validate_decomposition, mod_ordinal, nucleus_key,
  extends, extends_any, is_vowel_prefix, try_slots, try_modified_vowels, clashes,
  validate_ambiguous, validate_from, validate_impl, scan_marks, check_tone_mod_invariant,
  validate_syllable_state,
}
use nexus_key.Validator.{valid, invalid}
use nexus_key.Phonology.Syllable.{key_of_slots}
use nexus_key.Tests.Fixtures.{tien}

tien-valid : validate_syllable_state tien false ≡ valid
unfolding is_vowel_base is_vowel is_d is_horn has_modifier has_tone is_empty at is_front_base_vowel
    vowel_slot base_index key1 key2 key3 vc_pair_rules find_finals get_allowed_finals vowel_table
    find_entry find_vowel is_initial_letter parse_initial_consonant parse_final_consonant
    final_consonant_bit is_stop_final get_tone is_valid_consonant_prefix span_vowels is_k_allowed
    is_stop_tone validate_final validate_nucleus validate_rest validate_decomposition mod_ordinal
    nucleus_key extends extends_any is_vowel_prefix try_slots try_modified_vowels clashes
    validate_ambiguous validate_from validate_impl scan_marks check_tone_mod_invariant
    validate_syllable_state key_of_slots
tien-valid = refl

tien-not_invalid : validate_syllable_state tien false ≢ invalid
tien-not_invalid = ground (arith, tien-valid)
