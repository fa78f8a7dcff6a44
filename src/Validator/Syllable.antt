-- ===== src/Validator/Syllable.antt =====
-- `ValidateImpl`, `CheckToneModInvariant` and `ValidateSyllableState`.
use nexus_key.Base.{
  ℕ, Bool, true, false, not, ◌&&◌, ◌||◌, ◌==◌, ltb, leb, if◌then◌else◌, Option, none, some, List,
  [], ◌∷◌, length,
}
use nexus_key.State.{
  CharState, mod_eq, no_mod, is_vowel, is_d, has_modifier, has_tone, at, base_at, is_vowel_at,
}
use nexus_key.Phonology.Keys.{is_front_base_vowel}
use nexus_key.Validator.Consonants.{parse_initial_consonant, is_valid_consonant_prefix}
use nexus_key.Validator.Decomposition.{
  SyllableState, valid, valid_prefix, invalid, validate_decomposition,
}

abbrev pub is_valid : SyllableState → Bool
is_valid valid = true
is_valid _ = false

abbrev pub is_valid_prefix : SyllableState → Bool
is_valid_prefix valid_prefix = true
is_valid_prefix _ = false

abbrev pub is_invalid : SyllableState → Bool
is_invalid invalid = true
is_invalid _ = false

-- The better of two results, with `worse` if both are invalid.
abbrev pub best : SyllableState → SyllableState → SyllableState → SyllableState
best r1 r2 worse =
    if is_valid r2 || is_valid r1
    then valid
    else if is_valid_prefix r2 || is_valid_prefix r1
    then valid_prefix
    else worse

-- `result` raised by the result of another decomposition.
abbrev pub raise : SyllableState → SyllableState → SyllableState
raise r result =
    if is_valid r
    then valid
    else if is_valid_prefix r && not (is_valid result)
    then valid_prefix
    else result

-- k, c, q, gh and ngh before the vowels that they do not go with.
unfoldable pub clashes : List CharState → ℕ → Bool
clashes states initial_len =
    let first = base_at states initial_len in
    let front = is_front_base_vowel first in
    let c0 = base_at states 0 in
    let c1 = base_at states 1 in
    if initial_len == 1
    then c0 == b'k' && not front || c0 == b'c' && front || c0 == b'q' && not (first == b'u')
    else if initial_len == 2
    then c0 == b'g' && c1 == b'h' && not front
    else initial_len == 3 && c0 == b'n' && c1 == b'g' && base_at states 2 == b'h' && not front

-- The two readings of a buffer that begins with gi or qu.
unfoldable pub validate_ambiguous : List CharState → SyllableState → SyllableState
validate_ambiguous states result =
    let count = length states in
    let c0 = base_at states 0 in
    let c1 = base_at states 1 in
    let r1 = validate_decomposition states 1 in
    let r2 = validate_decomposition states 2 in
    if leb 2 count && c0 == b'g' && c1 == b'i' && is_vowel_at states 1
    then (if ltb 2 count && is_vowel_at states 2 then best r1 r2 result else raise r1 result)
    else if leb 2 count && c0 == b'q' && c1 == b'u'
    then (if ltb 2 count && is_vowel_at states 2
        then raise r2 result
        else if count == 2
        then valid_prefix
        else result)
    else result

-- From the length of the initial consonant on.
unfoldable pub validate_from : List CharState → Bool → ℕ → SyllableState
validate_from states zwjf initial_len =
    let count = length states in
    let prefix = if is_valid_consonant_prefix states zwjf then valid_prefix else invalid in
    if ltb 0 initial_len && initial_len == count
    then prefix
    else if ltb 0 initial_len && ltb initial_len count && not (is_vowel_at states initial_len)
    then prefix
    else if ltb initial_len count && is_vowel_at states initial_len && clashes states initial_len
    then invalid
    else validate_ambiguous states (validate_decomposition states initial_len)

unfoldable pub validate_impl : List CharState → Bool → SyllableState
validate_impl states zwjf =
    let initial_len = parse_initial_consonant states zwjf in
    if length states == 0
    then valid_prefix
    else if initial_len == 0 && not (is_vowel_at states 0)
    then (if is_d (at states 0) && mod_eq (at states 0).mod_ no_mod
        then validate_from states zwjf 1
        else invalid)
    else validate_from states zwjf initial_len

-- The scan of the states: whether a vowel has a modifier, and the toned vowel; `none` once a
-- second tone is found.
pub record Marks : Type 0 where
  pub any_mod : Bool
  pub toned : Option CharState

unfoldable pub scan_marks : Marks → List CharState → Option Marks
scan_marks m [] = some m
scan_marks m (s ∷ states) =
    let m' : Marks = record m { any_mod = m.any_mod || has_modifier s } in
    let skip = scan_marks m states in
    let untoned = scan_marks m' states in
    let toned = scan_marks (record m' { toned = some s }) states in
    if not (is_vowel s)
    then skip
    else if not (has_tone s)
    then untoned
    else (elim m.toned [ none ↦ toned | some t ↦ none ])

unfoldable pub check_tone_mod_invariant : List CharState → Bool
check_tone_mod_invariant states =
    elim (scan_marks (record { any_mod = false; toned = none }) states) [
      | none ↦ false
      | some m ↦ elim m.toned [ none ↦ true | some t ↦ not m.any_mod || has_modifier t ]
    ]

unfoldable pub validate_syllable_state : List CharState → Bool → SyllableState
validate_syllable_state states zwjf =
    let r = validate_impl states zwjf in
    if not (is_invalid r) && not (check_tone_mod_invariant states) then invalid else r
