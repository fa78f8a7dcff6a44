-- ===== src/Converter/Reverse.antt =====
-- The reverse maps and `DecodeString` of src/core/engine/CodeTableConverter.cpp. The loops over the
-- input step by one or two units.
use nexus_key.Base.{
  ℕ, ◌+◌, ◌*◌, ◌/◌, ◌%◌, Bool, not, ◌&&◌, ◌||◌, ◌==◌, leb, if◌then◌else◌, none, some, [], ◌∷◌,
  Wstring,
}
use nexus_key.Config.{CodeTable, unicode, tcvn3, vni_windows, unicode_compound, vietnamese_locale}
use nexus_key.Letters.{Ctype, to_upper_vietnamese, to_lower_vietnamese}
use nexus_key.Converter.{find, decode_compound}
use nexus_key.Converter.Tables.{CodeMap, tcvn3_map, vni_map, unicode_compound_map, cp1258_map}

unfoldable pub is_lower_viet : Ctype → ℕ → Bool
is_lower_viet ct ch = to_lower_vietnamese ct ch == ch && not (to_upper_vietnamese ct ch == ch)

-- A new key is added, a known one gets the character if that is a small letter and the old one is not.
unfoldable pub add_reverse : (ℕ → Bool) → ℕ → ℕ → CodeMap → CodeMap
add_reverse is_lower key ch [] = (key, ch) ∷ []
add_reverse is_lower key ch ((k, old) ∷ rev) =
    let rest = add_reverse is_lower key ch rev in
    if k == key
    then (k, (if is_lower ch && not (is_lower old) then ch else old)) ∷ rev
    else (k, old) ∷ rest

-- `(first << 16) | second`.
abbrev pub pair_key : ℕ → ℕ → ℕ
pair_key a b = a * 0x10000 + b

-- The loop of `GetTcvn3Reverse`, on from a map.
unfoldable pub tcvn3_reverse : (ℕ → Bool) → CodeMap → CodeMap → CodeMap
unfolding add_reverse
tcvn3_reverse is_lower [] rev = rev
tcvn3_reverse is_lower ((ch, v) ∷ m) rev = tcvn3_reverse is_lower m (add_reverse is_lower v ch rev)

pub record ReversePairMap : Type 0 where
  pub single : CodeMap
  pub pair : CodeMap

-- The key of the low byte followed by the high byte.
abbrev pub lo_hi_key : ℕ → ℕ
lo_hi_key v = pair_key (v % 0x100) (v / 0x100 % 0x100)

-- The loop of `BuildReversePairMap`.
unfoldable pub build_reverse_pair_map : (ℕ → Bool) → CodeMap → ReversePairMap → ReversePairMap
unfolding add_reverse
build_reverse_pair_map is_lower [] r = r
build_reverse_pair_map is_lower ((ch, v) ∷ m) r = build_reverse_pair_map is_lower m (
    if leb v 0xFF
    then record r { single = add_reverse is_lower v ch r.single }
    else record r { pair = add_reverse is_lower (lo_hi_key v) ch r.pair })

-- The loop of `GetCompoundReverse`.
unfoldable pub compound_reverse : (ℕ → Bool) → CodeMap → CodeMap → CodeMap
unfolding add_reverse decode_compound
compound_reverse is_lower [] rev = rev
compound_reverse is_lower ((ch, v) ∷ m) rev =
    let d = decode_compound v in
    compound_reverse is_lower m
      (if d.count == 2 then add_reverse is_lower (pair_key d.unit_0 d.unit_1) ch rev else rev)

unfoldable pub is_combining_mark : ℕ → Bool
is_combining_mark ch = ch == 0x300 || ch == 0x301 || ch == 0x303 || ch == 0x309 || ch == 0x323

-- The character of a unit, or the unit.
unfoldable pub decode_unit : CodeMap → ℕ → ℕ
unfolding find
decode_unit rev u = elim (find u rev) [ some c ↦ c | none ↦ u ]

-- The loop for TCVN3.
unfoldable pub decode_tcvn3 : CodeMap → Wstring → Wstring
unfolding decode_unit
decode_tcvn3 rev [] = []
decode_tcvn3 rev (u ∷ input) = decode_unit rev u ∷ decode_tcvn3 rev input

-- The loop for Unicode Compound.
unfoldable pub decode_marks : CodeMap → Wstring → Wstring
unfolding find is_combining_mark
decode_marks rev [] = []
decode_marks rev (u ∷ []) = u ∷ []
decode_marks rev (u ∷ v ∷ input) =
    elim (if is_combining_mark v then find (pair_key u v) rev else none) [
      | some c ↦ c ∷ decode_marks rev input
      | none ↦ u ∷ decode_marks rev (v ∷ input)
    ]

-- The loop for VNI and code page 1258.
unfoldable pub decode_pairs : ReversePairMap → Wstring → Wstring
unfolding find decode_unit
decode_pairs maps [] = []
decode_pairs maps (u ∷ []) = decode_unit maps.single u ∷ []
decode_pairs maps (u ∷ v ∷ input) = elim (find (pair_key u v) maps.pair) [
  | some c ↦ c ∷ decode_pairs maps input
  | none ↦ decode_unit maps.single u ∷ decode_pairs maps (v ∷ input)
]

abbrev pub no_pairs : ReversePairMap
no_pairs = record { single = []; pair = [] }

unfoldable pub decode_string : Ctype → Wstring → CodeTable → Wstring
unfolding is_lower_viet tcvn3_reverse compound_reverse build_reverse_pair_map decode_tcvn3
    decode_marks decode_pairs
decode_string ct input unicode = input
decode_string ct input tcvn3 = decode_tcvn3 (tcvn3_reverse (is_lower_viet ct) tcvn3_map []) input
decode_string ct input unicode_compound =
    decode_marks (compound_reverse (is_lower_viet ct) unicode_compound_map []) input
decode_string ct input vni_windows =
    decode_pairs (build_reverse_pair_map (is_lower_viet ct) vni_map no_pairs) input
decode_string ct input vietnamese_locale =
    decode_pairs (build_reverse_pair_map (is_lower_viet ct) cp1258_map no_pairs) input
