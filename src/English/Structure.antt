-- ===== src/English/Structure.antt =====
-- Structural tests of a state buffer: consonants between vowel groups, the clusters gi and qu, vowel
-- pairs and codas that Vietnamese does not have.
use nexus_key.Base.{
  ℕ, zero, suc, ◌+◌, ◌-◌, Bool, true, false, not, ◌&&◌, ◌||◌, ◌==◌, ltb, leb, if◌then◌else◌, Option,
  none, some, List, [], ◌∷◌, length, any,
}
use nexus_key.State.{CharState, is_vowel, is_d, has_modifier, at, base_at, is_vowel_at}
use nexus_key.Letters.{Ctype, cell, diphthong_vowel_index, diphthong_classic, diphthong_modern}
use nexus_key.English.Patterns.{is_hard_english_end}
use nexus_key.Validator.{span_vowels}

-- The leading states that are no vowels, and the rest.
unfoldable pub span_consonants : List CharState → List CharState × List CharState
span_consonants [] = ([], [])
span_consonants (s ∷ states) =
    let rest = span_consonants states in
    if is_vowel s then ([], s ∷ states) else (s ∷ rest.0, rest.1)

abbrev pub is_coda_letter : ℕ → Bool
is_coda_letter c = c == b'c' || c == b'k' || c == b'm' || c == b'n' || c == b'p' || c == b't'

-- A vowel group with a modifier before a single coda consonant is no sign of English.
unfoldable pub is_exempt : List CharState → List CharState → Bool
is_exempt group consonants =
    length consonants == 1 && any has_modifier group && is_coda_letter (base_at consonants 0)

-- The loop from index `i` on, with the states from `i` as a list and fuel for its rounds.
unfoldable pub vcv_from : ℕ → List CharState → Bool
vcv_from zero states = false
vcv_from (suc fuel) [] = false
vcv_from (suc fuel) (s ∷ states) =
    let group = span_vowels (s ∷ states) in
    let consonants = span_consonants group.1 in
    let skip = vcv_from fuel states in
    let next = vcv_from fuel consonants.1 in
    if not (is_vowel s)
    then skip
    else if not (length consonants.0 == 0)
        && not (length consonants.1 == 0)
        && not (is_exempt group.0 consonants.0)
    then true
    else next

unfoldable pub has_structural_vcv_pattern : List CharState → Bool
has_structural_vcv_pattern states =
    if ltb (length states) 4 then false else vcv_from (length states) states

unfoldable pub is_hard_english_tone_context : Ctype → List CharState → ℕ → Bool
is_hard_english_tone_context ct states tone_key =
    if not (is_hard_english_end ct tone_key) then false else has_structural_vcv_pattern states

unfoldable pub is_cluster_consonant : List CharState → ℕ → Bool
is_cluster_consonant states i =
    if i == 0
    then false
    else if base_at states i == b'i'
        && base_at states (i - 1) == b'g'
        && ltb (i + 1) (length states)
        && is_vowel_at states (i + 1)
    then true
    else base_at states i == b'u' && base_at states (i - 1) == b'q'

-- Two diphthong indices that neither table has a rule for; i+e, y+a and y+e are let through.
unfoldable pub is_invalid_pair : Option ℕ → Option ℕ → Bool
is_invalid_pair none w = false
is_invalid_pair (some v0) none = false
is_invalid_pair (some v0) (some v1) =
    if v0 == 2 && v1 == 1
    then false
    else if v0 == 5 && v1 == 0
    then false
    else if v0 == 5 && v1 == 1
    then false
    else cell diphthong_classic v0 v1 == 0 && cell diphthong_modern v0 v1 == 0

unfoldable pub is_invalid_pair_at : List CharState → ℕ → Bool
is_invalid_pair_at states i =
    if not (is_vowel_at states i) || not (is_vowel_at states (i + 1))
    then false
    else if has_modifier (at states i) || has_modifier (at states (i + 1))
    then false
    else if is_cluster_consonant states i
    then false
    else is_invalid_pair (diphthong_vowel_index (base_at states i))
        (diphthong_vowel_index (base_at states (i + 1)))

-- The loop over `rounds` indices from `i` on.
unfoldable pub any_pair_from : List CharState → ℕ → ℕ → Bool
any_pair_from states zero i = false
any_pair_from states (suc rounds) i =
    is_invalid_pair_at states i || any_pair_from states rounds (suc i)

unfoldable pub has_invalid_adjacent_vowel_pair : List CharState → Bool
has_invalid_adjacent_vowel_pair states = any_pair_from states (length states - 1) 0

-- The scan from the right, over the index that is looked at plus one: the number of consonants
-- after the last vowel, `none` if there is no vowel. A `d` at index 0 counts as a vowel.
unfoldable pub coda_length : List CharState → ℕ → ℕ → Option ℕ
coda_length states zero coda_len = none
coda_length states (suc i) coda_len =
    let rest = coda_length states i (suc coda_len) in
    if is_vowel_at states i || is_d (at states i) && i == 0 then some coda_len else rest

abbrev pub is_final_digraph : ℕ → ℕ → Bool
is_final_digraph c1 c2 =
    c1 == b'c' && c2 == b'h' || c1 == b'n' && c2 == b'g' || c1 == b'n' && c2 == b'h'

unfoldable pub is_invalid_vietnamese_coda : Ctype → List CharState → Bool
is_invalid_vietnamese_coda ct states =
    let count = length states in
    let c1 = ct.towlower (base_at states (count - 2)) in
    let c2 = ct.towlower (base_at states (count - 1)) in
    if ltb count 3 then false else (elim (coda_length states count 0) [
      | none ↦ false
      | some coda_len ↦
          if ltb coda_len 2
          then false
          else if leb 3 coda_len
          then true
          else not (is_final_digraph c1 c2)
    ])
