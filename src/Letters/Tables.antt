-- ===== src/Letters/Tables.antt =====
-- The lookup tables of VietnameseTables.h. A table index of -1 is `none`.
use nexus_key.Base.{
  ℕ, suc, Bool, ◌&&◌, ◌||◌, ◌==◌, if◌then◌else◌, Option, none, some, List, [], ◌∷◌, get_elem?,
}
use nexus_key.Letters.Case.{Ctype}

-- `table[i][j]`, and 0 outside the table, which the code never reads.
abbrev pub cell : List (List ℕ) → ℕ → ℕ → ℕ
cell table i j = elim (get_elem? table i) [
  | none ↦ 0
  | some row ↦ elim (get_elem? row j) [ none ↦ 0 | some c ↦ c ]
]

-- Rows a, e, o, u; columns circumflex, breve, horn.
abbrev pub modified_vowel : List (List ℕ)
modified_vowel =
    (0xE2 ∷ 0x103 ∷ 0 ∷ [])
    ∷ (0xEA ∷ 0 ∷ 0 ∷ [])
    ∷ (0xF4 ∷ 0 ∷ 0x1A1 ∷ [])
    ∷ (0 ∷ 0 ∷ 0x1B0 ∷ [])
    ∷ []

unfoldable pub vowel_base_index : ℕ → Option ℕ
vowel_base_index c =
    if c == b'a'
    then some 0
    else if c == b'e'
    then some 1
    else if c == b'o'
    then some 2
    else if c == b'u'
    then some 3
    else none

-- Rows a â ă e ê i o ô ơ u ư y; columns acute, grave, hook, tilde, dot.
abbrev pub toned_vowel : List (List ℕ)
toned_vowel =
    (0xE1 ∷ 0xE0 ∷ 0x1EA3 ∷ 0xE3 ∷ 0x1EA1 ∷ [])
    ∷ (0x1EA5 ∷ 0x1EA7 ∷ 0x1EA9 ∷ 0x1EAB ∷ 0x1EAD ∷ [])
    ∷ (0x1EAF ∷ 0x1EB1 ∷ 0x1EB3 ∷ 0x1EB5 ∷ 0x1EB7 ∷ [])
    ∷ (0xE9 ∷ 0xE8 ∷ 0x1EBB ∷ 0x1EBD ∷ 0x1EB9 ∷ [])
    ∷ (0x1EBF ∷ 0x1EC1 ∷ 0x1EC3 ∷ 0x1EC5 ∷ 0x1EC7 ∷ [])
    ∷ (0xED ∷ 0xEC ∷ 0x1EC9 ∷ 0x129 ∷ 0x1ECB ∷ [])
    ∷ (0xF3 ∷ 0xF2 ∷ 0x1ECF ∷ 0xF5 ∷ 0x1ECD ∷ [])
    ∷ (0x1ED1 ∷ 0x1ED3 ∷ 0x1ED5 ∷ 0x1ED7 ∷ 0x1ED9 ∷ [])
    ∷ (0x1EDB ∷ 0x1EDD ∷ 0x1EDF ∷ 0x1EE1 ∷ 0x1EE3 ∷ [])
    ∷ (0xFA ∷ 0xF9 ∷ 0x1EE7 ∷ 0x169 ∷ 0x1EE5 ∷ [])
    ∷ (0x1EE9 ∷ 0x1EEB ∷ 0x1EED ∷ 0x1EEF ∷ 0x1EF1 ∷ [])
    ∷ (0xFD ∷ 0x1EF3 ∷ 0x1EF7 ∷ 0x1EF9 ∷ 0x1EF5 ∷ [])
    ∷ []

-- The untoned vowel of each row of `toned_vowel`.
abbrev pub tone_base : List ℕ
tone_base =
    b'a' ∷ 0xE2 ∷ 0x103 ∷ b'e' ∷ 0xEA ∷ b'i' ∷ b'o' ∷ 0xF4 ∷ 0x1A1 ∷ b'u' ∷ 0x1B0 ∷ b'y' ∷ []

unfoldable pub tone_base_index : ℕ → Option ℕ
tone_base_index c =
    if c == b'a'
    then some 0
    else if c == 0xE2
    then some 1
    else if c == 0x103
    then some 2
    else if c == b'e'
    then some 3
    else if c == 0xEA
    then some 4
    else if c == b'i'
    then some 5
    else if c == b'o'
    then some 6
    else if c == 0xF4
    then some 7
    else if c == 0x1A1
    then some 8
    else if c == b'u'
    then some 9
    else if c == 0x1B0
    then some 10
    else if c == b'y'
    then some 11
    else none

-- The inner loop: the column of a row that holds the character.
unfoldable pub find_column : ℕ → ℕ → List ℕ → Option ℕ
find_column c j [] = none
find_column c j (x ∷ row) = if x == c then some j else find_column c (suc j) row

-- The two nested loops over `kTonedVowel`: the first row and column that hold the character.
unfoldable pub find_toned : ℕ → ℕ → List (List ℕ) → Option (record { row : ℕ; column : ℕ })
unfolding find_column
find_toned c i [] = none
find_toned c i (row ∷ rows) = elim (find_column c 0 row) [
  | some j ↦ some (record { row = i; column = j })
  | none ↦ find_toned c (suc i) rows
]

unfoldable pub strip_tone : Ctype → ℕ → ℕ
unfolding tone_base_index find_toned
strip_tone ct ch = elim (tone_base_index ch) [
  | some i ↦ ch
  | none ↦ elim (find_toned (ct.towlower ch) 0 toned_vowel) [
    | none ↦ ch
    | some p ↦ elim (get_elem? tone_base p.row) [ none ↦ ch | some b ↦ b ]
  ]
]

unfoldable pub diphthong_vowel_index : ℕ → Option ℕ
diphthong_vowel_index c =
    if c == b'a'
    then some 0
    else if c == b'e'
    then some 1
    else if c == b'i'
    then some 2
    else if c == b'o'
    then some 3
    else if c == b'u'
    then some 4
    else if c == b'y'
    then some 5
    else none

-- Rows and columns a e i o u y; 0 no rule, 1 first vowel, 2 second vowel, 3 depends on the coda.
abbrev pub diphthong_classic : List (List ℕ)
diphthong_classic =
    (0 ∷ 0 ∷ 1 ∷ 1 ∷ 1 ∷ 1 ∷ [])
    ∷ (0 ∷ 0 ∷ 1 ∷ 1 ∷ 1 ∷ 0 ∷ [])
    ∷ (1 ∷ 0 ∷ 0 ∷ 0 ∷ 1 ∷ 0 ∷ [])
    ∷ (3 ∷ 3 ∷ 1 ∷ 0 ∷ 1 ∷ 0 ∷ [])
    ∷ (1 ∷ 1 ∷ 1 ∷ 0 ∷ 0 ∷ 3 ∷ [])
    ∷ (0 ∷ 0 ∷ 0 ∷ 0 ∷ 3 ∷ 0 ∷ [])
    ∷ []

abbrev pub diphthong_modern : List (List ℕ)
diphthong_modern =
    (0 ∷ 0 ∷ 1 ∷ 1 ∷ 1 ∷ 1 ∷ [])
    ∷ (0 ∷ 0 ∷ 1 ∷ 1 ∷ 1 ∷ 0 ∷ [])
    ∷ (1 ∷ 0 ∷ 0 ∷ 0 ∷ 1 ∷ 0 ∷ [])
    ∷ (2 ∷ 2 ∷ 1 ∷ 0 ∷ 1 ∷ 0 ∷ [])
    ∷ (1 ∷ 2 ∷ 1 ∷ 2 ∷ 0 ∷ 2 ∷ [])
    ∷ (0 ∷ 0 ∷ 0 ∷ 0 ∷ 3 ∷ 0 ∷ [])
    ∷ []

unfoldable pub is_triphthong : ℕ → ℕ → ℕ → Bool
is_triphthong v1 v2 v3 =
    v1 == b'o' && v2 == b'a' && v3 == b'i'
    || v1 == b'o' && v2 == b'e' && v3 == b'o'
    || v1 == b'u' && v2 == b'y' && v3 == b'a'
    || v1 == b'u' && v2 == b'y' && v3 == b'u'
    || v1 == b'o' && v2 == b'a' && v3 == b'o'
    || v1 == b'o' && v2 == b'a' && v3 == b'y'

unfoldable pub is_bare_smart_triphthong_tail : ℕ → ℕ → ℕ → Bool
is_bare_smart_triphthong_tail v1 v2 v3 = v1 == b'u' && v2 == b'y' && v3 == b'e'

unfoldable pub is_vowel_char : ℕ → Bool
is_vowel_char c =
    c == b'a'
    || c == b'e'
    || c == b'i'
    || c == b'o'
    || c == b'u'
    || c == b'y'
    || c == b'A'
    || c == b'E'
    || c == b'I'
    || c == b'O'
    || c == b'U'
    || c == b'Y'
