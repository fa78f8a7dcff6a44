-- ===== src/Phonology/VowelTable.antt =====
-- The vowel nucleus table of src/core/engine/PhonotacticsValidator.cpp.
use nexus_key.Base.{ℕ, Bool, true, false, ◌==◌, if◌then◌else◌, Option, none, some, List, [], ◌∷◌}
use nexus_key.Phonology.Keys.{
  vowel_slot, key1, key2, key3, k_a, k_e, k_i, k_o, k_u, k_y, k_none, k_circ, k_brev, k_horn,
}

-- `kVowelTable`: a nucleus, and whether a final consonant may follow it.
unfoldable pub vowel_table : List (ℕ × Bool)
unfolding vowel_slot key1 key2 key3
vowel_table =
    (key1 (vowel_slot k_a k_none), true)
    ∷ (key1 (vowel_slot k_a k_circ), true)
    ∷ (key1 (vowel_slot k_a k_brev), true)
    ∷ (key1 (vowel_slot k_e k_none), true)
    ∷ (key1 (vowel_slot k_e k_circ), true)
    ∷ (key1 (vowel_slot k_i k_none), true)
    ∷ (key1 (vowel_slot k_o k_none), true)
    ∷ (key1 (vowel_slot k_o k_circ), true)
    ∷ (key1 (vowel_slot k_o k_horn), true)
    ∷ (key1 (vowel_slot k_u k_none), true)
    ∷ (key1 (vowel_slot k_u k_horn), true)
    ∷ (key1 (vowel_slot k_y k_none), true)
    ∷ (key2 (vowel_slot k_a k_none) (vowel_slot k_i k_none), false)
    ∷ (key2 (vowel_slot k_a k_none) (vowel_slot k_o k_none), false)
    ∷ (key2 (vowel_slot k_a k_none) (vowel_slot k_u k_none), false)
    ∷ (key2 (vowel_slot k_a k_none) (vowel_slot k_y k_none), false)
    ∷ (key2 (vowel_slot k_a k_circ) (vowel_slot k_u k_none), false)
    ∷ (key2 (vowel_slot k_a k_circ) (vowel_slot k_y k_none), false)
    ∷ (key2 (vowel_slot k_e k_none) (vowel_slot k_o k_none), false)
    ∷ (key2 (vowel_slot k_e k_circ) (vowel_slot k_u k_none), false)
    ∷ (key2 (vowel_slot k_i k_none) (vowel_slot k_a k_none), false)
    ∷ (key2 (vowel_slot k_i k_none) (vowel_slot k_u k_none), false)
    ∷ (key2 (vowel_slot k_o k_none) (vowel_slot k_a k_none), true)
    ∷ (key2 (vowel_slot k_o k_none) (vowel_slot k_i k_none), false)
    ∷ (key2 (vowel_slot k_o k_circ) (vowel_slot k_i k_none), false)
    ∷ (key2 (vowel_slot k_o k_horn) (vowel_slot k_i k_none), false)
    ∷ (key2 (vowel_slot k_u k_none) (vowel_slot k_a k_none), false)
    ∷ (key2 (vowel_slot k_u k_none) (vowel_slot k_i k_none), false)
    ∷ (key2 (vowel_slot k_u k_horn) (vowel_slot k_a k_none), false)
    ∷ (key2 (vowel_slot k_u k_horn) (vowel_slot k_i k_none), false)
    ∷ (key2 (vowel_slot k_u k_horn) (vowel_slot k_u k_none), false)
    ∷ (key2 (vowel_slot k_i k_none) (vowel_slot k_e k_circ), true)
    ∷ (key2 (vowel_slot k_o k_none) (vowel_slot k_a k_brev), true)
    ∷ (key2 (vowel_slot k_o k_none) (vowel_slot k_e k_none), true)
    ∷ (key2 (vowel_slot k_o k_none) (vowel_slot k_o k_none), true)
    ∷ (key2 (vowel_slot k_u k_none) (vowel_slot k_a k_circ), true)
    ∷ (key2 (vowel_slot k_u k_none) (vowel_slot k_e k_circ), true)
    ∷ (key2 (vowel_slot k_u k_none) (vowel_slot k_o k_circ), true)
    ∷ (key2 (vowel_slot k_u k_none) (vowel_slot k_o k_horn), true)
    ∷ (key2 (vowel_slot k_u k_none) (vowel_slot k_y k_none), true)
    ∷ (key2 (vowel_slot k_u k_horn) (vowel_slot k_o k_horn), true)
    ∷ (key2 (vowel_slot k_y k_none) (vowel_slot k_e k_circ), true)
    ∷ (key3 (vowel_slot k_i k_none) (vowel_slot k_e k_circ) (vowel_slot k_u k_none), false)
    ∷ (key3 (vowel_slot k_o k_none) (vowel_slot k_a k_none) (vowel_slot k_i k_none), false)
    ∷ (key3 (vowel_slot k_o k_none) (vowel_slot k_a k_none) (vowel_slot k_y k_none), false)
    ∷ (key3 (vowel_slot k_o k_none) (vowel_slot k_e k_none) (vowel_slot k_o k_none), false)
    ∷ (key3 (vowel_slot k_u k_none) (vowel_slot k_a k_circ) (vowel_slot k_y k_none), false)
    ∷ (key3 (vowel_slot k_u k_none) (vowel_slot k_o k_circ) (vowel_slot k_i k_none), false)
    ∷ (key3 (vowel_slot k_u k_none) (vowel_slot k_y k_none) (vowel_slot k_a k_none), false)
    ∷ (key3 (vowel_slot k_u k_none) (vowel_slot k_y k_none) (vowel_slot k_u k_none), false)
    ∷ (key3 (vowel_slot k_u k_horn) (vowel_slot k_o k_horn) (vowel_slot k_i k_none), false)
    ∷ (key3 (vowel_slot k_u k_horn) (vowel_slot k_o k_horn) (vowel_slot k_u k_none), false)
    ∷ (key3 (vowel_slot k_u k_none) (vowel_slot k_y k_none) (vowel_slot k_e k_circ), true)
    ∷ (key3 (vowel_slot k_y k_none) (vowel_slot k_e k_circ) (vowel_slot k_u k_none), false)
    ∷ []

-- The entry's `canEnd`, if the table has the key.
unfoldable pub find_entry : ℕ → List (ℕ × Bool) → Option Bool
find_entry key [] = none
find_entry key ((k, can_end) ∷ entries) = if k == key then some can_end else find_entry key entries

unfoldable pub find_vowel : ℕ → Option Bool
unfolding find_entry vowel_table
find_vowel key = find_entry key vowel_table
