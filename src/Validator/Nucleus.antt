-- ===== src/Validator/Nucleus.antt =====
-- The vowel nucleus of a state buffer, as a packed key.
use nexus_key.Base.{
  ℕ, ◌/◌, ◌%◌, ◌^◌, Bool, false, ◌&&◌, ◌||◌, ◌==◌, ltb, leb, if◌then◌else◌, Option, none, some,
  List, [], ◌∷◌, ◌++◌, map, length, any,
}
use nexus_key.State.{CharState, Modifier, mod_value}
use nexus_key.Phonology.Keys.{vowel_slot, base_index}
use nexus_key.Phonology.VowelTable.{vowel_table, find_vowel}
use nexus_key.Phonology.Syllable.{key_of_slots}

-- `ModOrdinal`: a stroke counts as no modifier.
unfoldable pub mod_ordinal : Modifier → ℕ
mod_ordinal m = if ltb 3 (mod_value m) then 0 else mod_value m

abbrev pub slot_of : CharState → ℕ
slot_of s = vowel_slot (base_index s.base) (mod_ordinal s.mod_)

abbrev pub is_bad_base : CharState → Bool
is_bad_base s = base_index s.base == 0xFF

-- The key of one to three vowels.
unfoldable pub nucleus_key : List CharState → Option ℕ
nucleus_key vowels =
    if length vowels == 0 || ltb 3 (length vowels)
    then none
    else if any is_bad_base vowels
    then none
    else some (key_of_slots (map slot_of vowels))

-- The comparison of one table entry with a key of one or two slots.
unfoldable pub extends : ℕ → ℕ → ℕ → Bool
extends key num_slots entry =
    let entry_len = entry / 2 ^ 24 % 256 in
    let slot0 = if num_slots == 2 then key / 2 ^ 8 % 256 else key % 256 in
    let first = if entry_len == 2 then entry / 2 ^ 8 % 256 else entry / 2 ^ 16 % 256 in
    if num_slots == 1 && leb 2 entry_len
    then first == slot0
    else num_slots == 2 && entry_len == 3 && entry / 2 ^ 8 % 2 ^ 16 == key % 2 ^ 16

unfoldable pub extends_any : ℕ → ℕ → List (ℕ × Bool) → Bool
extends_any key num_slots [] = false
extends_any key num_slots ((entry, can_end) ∷ entries) =
    extends key num_slots entry || extends_any key num_slots entries

unfoldable pub is_vowel_prefix : ℕ → ℕ → Bool
is_vowel_prefix key num_slots = extends_any key num_slots vowel_table

-- Some modifier in place of none at one vowel gives a nucleus that passes the test.
unfoldable pub try_slots : (Bool → Bool) → List ℕ → List CharState → Bool
try_slots pred before [] = false
try_slots pred before (s ∷ after) =
    let rest = try_slots pred (before ++ slot_of s ∷ []) after in
    mod_ordinal s.mod_ == 0 && any at_mod (1 ∷ 2 ∷ 3 ∷ []) || rest
  where
    passes : Option Bool → Bool
    passes = elim [ none ↦ false | some can_end ↦ pred can_end ]

    at_mod : ℕ → Bool
    at_mod m =
        passes (
          find_vowel
            (key_of_slots (before ++ vowel_slot (base_index s.base) m ∷ map slot_of after)))

unfoldable pub try_modified_vowels : (Bool → Bool) → List CharState → Bool
try_modified_vowels pred vowels =
    if ltb (length vowels) 1 || ltb 3 (length vowels)
    then false
    else if any is_bad_base vowels
    then false
    else try_slots pred [] vowels
