-- ===== src/Converter.antt =====
-- Conversion between Unicode and the legacy code tables: `ConvertChar`, `EncodeString` and
-- `DecodeString` of src/core/engine/CodeTableConverter.cpp. The maps of the source are lists of
-- entries in the order of the source. A reverse map keeps one character for each encoded value, a
-- small letter where it can, so the order of the entries does not matter. Characters are those of
-- 16 bits, for which `first << 16 | second` is a sum.
use nexus_key.Base.{
  ℕ, zero, ◌+◌, ◌-◌, ◌*◌, ◌/◌, ◌%◌, Bool, true, false, not, ◌&&◌, ◌||◌, ◌==◌, ltb, leb,
  if◌then◌else◌, Option, none, some, List, [], ◌∷◌, ◌++◌, map, Wstring, length, get_elem?,
}
use nexus_key.Config.{CodeTable, unicode, tcvn3, vni_windows, unicode_compound, vietnamese_locale}
pub mod Tables
pub mod Reverse
pub mod Pairs
pub mod Coded
pub mod RoundTrip
pub mod Tcvn3
pub mod CaseText
pub mod Diacritics
use Tables.{CodeMap, tcvn3_map, vni_map, unicode_compound_map, cp1258_map}

-- `find`.
unfoldable pub find : ℕ → CodeMap → Option ℕ
find k [] = none
find k ((x, v) ∷ m) = if x == k then some v else find k m

pub record EncodedChar : Type 0 where
  pub unit_0 : ℕ
  pub unit_1 : ℕ
  pub count : ℕ

abbrev pub one_unit : ℕ → EncodedChar
one_unit u = record { unit_0 = u; unit_1 = 0; count = 1 }

abbrev pub two_units : ℕ → ℕ → EncodedChar
two_units u v = record { unit_0 = u; unit_1 = v; count = 2 }

unfoldable pub decode_lo_hi : ℕ → EncodedChar
decode_lo_hi value =
    if leb value 0xFF then one_unit value else two_units (value % 0x100) (value / 0x100 % 0x100)

abbrev pub combining_marks : List ℕ
combining_marks = 0x301 ∷ 0x300 ∷ 0x309 ∷ 0x303 ∷ 0x323 ∷ []

-- A high byte of at least 0x20 has a mark index of at least 0.
unfoldable pub decode_compound : ℕ → EncodedChar
decode_compound value =
    let hi = value / 0x100 % 0x100 in
    let lo = value % 0x100 in
    if ltb hi 0x20 then one_unit value else elim (get_elem? combining_marks (hi / 0x20 - 1)) [
      | some mark ↦ two_units lo mark
      | none ↦ one_unit value
    ]

-- The entry of a character, decoded, or else the character.
unfoldable pub converted : CodeMap → (ℕ → EncodedChar) → ℕ → EncodedChar
unfolding find
converted m decode ch = elim (find ch m) [ some v ↦ decode v | none ↦ one_unit ch ]

unfoldable pub convert_char : ℕ → CodeTable → EncodedChar
unfolding converted decode_lo_hi decode_compound
convert_char ch unicode = one_unit ch
convert_char ch tcvn3 = converted tcvn3_map one_unit ch
convert_char ch vni_windows = converted vni_map decode_lo_hi ch
convert_char ch unicode_compound = converted unicode_compound_map decode_compound ch
convert_char ch vietnamese_locale = converted cp1258_map decode_lo_hi ch

-- The units that are written.
abbrev pub written : EncodedChar → Wstring
written enc = enc.unit_0 ∷ (if enc.count == 2 then enc.unit_1 ∷ [] else [])

-- The loop of `EncodeString`.
unfoldable pub encode_units : CodeTable → Wstring → Wstring
encode_units to [] = []
encode_units to (ch ∷ input) = written (convert_char ch to) ++ encode_units to input

unfoldable pub encode_string : Wstring → CodeTable → Wstring
unfolding encode_units
encode_string input unicode = input
encode_string input to = encode_units to input
