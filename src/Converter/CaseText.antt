-- ===== src/Converter/CaseText.antt =====
-- The other operations on texts of src/core/engine/CodeTableConverter.cpp: `RemoveDiacritics`,
-- `ToUpper`, `ToLower`, `ToSentenceCase` and `ToTitleCase`. The maps of the source are lists with the
-- last entry written first.
use nexus_key.Base.{
  ℕ, Bool, true, false, ◌&&◌, ◌||◌, ◌==◌, if◌then◌else◌, List, [], ◌∷◌, Wstring, map,
}
use nexus_key.Letters.{Ctype, between, to_upper_vietnamese, to_lower_vietnamese, toned_vowel}
use nexus_key.Converter.Tables.{CodeMap}
use nexus_key.Converter.Reverse.{decode_unit}

unfoldable pub is_alpha : ℕ → Bool
is_alpha ch =
    if between b'A' b'Z' ch || between b'a' b'z' ch
    then true
    else if between 0xC0 0x24F ch
    then true
    else between 0x1EA0 0x1EF9 ch

abbrev pub row_base : List ℕ
row_base = b'a' ∷ b'a' ∷ b'a' ∷ b'e' ∷ b'e' ∷ b'i' ∷ b'o' ∷ b'o' ∷ b'o' ∷ b'u' ∷ b'u' ∷ b'y' ∷ []

-- The inner loop over the tones of a row.
unfoldable pub map_row : Ctype → ℕ → List ℕ → CodeMap → CodeMap
map_row ct base [] m = m
map_row ct base (lower ∷ row) m =
    map_row ct base row (
      if lower == 0
      then m
      else (to_upper_vietnamese ct lower, ct.towupper base) ∷ (lower, base) ∷ m)

-- The outer loop over the rows.
unfoldable pub map_rows : Ctype → List ℕ → List (List ℕ) → CodeMap → CodeMap
map_rows ct [] rows m = m
map_rows ct (base ∷ bases) [] m = m
map_rows ct (base ∷ bases) (row ∷ rows) m = map_rows ct bases rows (map_row ct base row m)

-- The modified vowels and the d with a stroke, the last one first.
abbrev pub modified_letters : CodeMap
modified_letters =
    (0x110, b'D')
    ∷ (0x111, b'd')
    ∷ (0x1AF, b'U')
    ∷ (0x1B0, b'u')
    ∷ (0x1A0, b'O')
    ∷ (0x1A1, b'o')
    ∷ (0xD4, b'O')
    ∷ (0xF4, b'o')
    ∷ (0xCA, b'E')
    ∷ (0xEA, b'e')
    ∷ (0x102, b'A')
    ∷ (0x103, b'a')
    ∷ (0xC2, b'A')
    ∷ (0xE2, b'a')
    ∷ []

abbrev pub write_entries : CodeMap → CodeMap → CodeMap
write_entries [] m = m
write_entries (e ∷ entries) m = e ∷ write_entries entries m

unfoldable pub diacritics_map : Ctype → CodeMap
diacritics_map ct = write_entries modified_letters (map_rows ct row_base toned_vowel [])

unfoldable pub remove_diacritics : Ctype → Wstring → Wstring
remove_diacritics ct input = map (decode_unit (diacritics_map ct)) input

unfoldable pub to_upper : Ctype → Wstring → Wstring
to_upper ct input = map (to_upper_vietnamese ct) input

unfoldable pub to_lower : Ctype → Wstring → Wstring
to_lower ct input = map (to_lower_vietnamese ct) input

abbrev ends_sentence : ℕ → Bool
ends_sentence ch = ch == b'.' || ch == b'!' || ch == b'?' || ch == 0x0A

-- The loop of `ToSentenceCase`, with `atSentenceStart`.
unfoldable pub sentence_case : Ctype → Bool → Wstring → Wstring
sentence_case ct at_start [] = []
sentence_case ct at_start (ch ∷ input) =
    let started = sentence_case ct false input in
    let on = sentence_case ct (if ends_sentence ch then true else at_start) input in
    if at_start && is_alpha ch
    then to_upper_vietnamese ct ch ∷ started
    else (if is_alpha ch then to_lower_vietnamese ct ch else ch) ∷ on

unfoldable pub to_sentence_case : Ctype → Wstring → Wstring
to_sentence_case ct input = sentence_case ct true input

-- The loop of `ToTitleCase`, with `afterSpace` and the C library's `iswspace`.
unfoldable pub title_case : Ctype → (ℕ → Bool) → Bool → Wstring → Wstring
title_case ct iswspace after_space [] = []
title_case ct iswspace after_space (ch ∷ input) =
    let started = title_case ct iswspace false input in
    let on = title_case ct iswspace (iswspace ch) input in
    if after_space && is_alpha ch
    then to_upper_vietnamese ct ch ∷ started
    else (if is_alpha ch then to_lower_vietnamese ct ch else ch) ∷ on

unfoldable pub to_title_case : Ctype → (ℕ → Bool) → Wstring → Wstring
to_title_case ct iswspace input = title_case ct iswspace true input
