-- ===== src/Converter/RoundTrip.antt =====
-- Texts that are encoded and decoded again.
use nexus_key.Base.{
  ℕ, ◌%◌, ◌<◌, ◌≡◌, ◌≢◌, ◌∙◌, refl, sym, Bool, true, all, some, [], ◌∷◌, Wstring, Option-cases, inl,
  inr, arith,
}
use nexus_key.Config.{CodeTable, unicode, tcvn3, vni_windows, unicode_compound, vietnamese_locale}
use nexus_key.Letters.{Ctype}
use nexus_key.Converter.{
  find, convert_char, decode_lo_hi, decode_compound, encode_string, encode_units,
}
use nexus_key.Converter.Tables.{CodeMap, tcvn3_map, vni_map, unicode_compound_map, cp1258_map}
use nexus_key.Converter.Reverse.{
  ReversePairMap, no_pairs, pair_key, is_lower_viet, build_reverse_pair_map, compound_reverse,
  is_combining_mark, decode_unit, decode_pairs, decode_marks, decode_string, add_reverse,
}
use nexus_key.Converter.Pairs.{find-all, is_narrow}
use nexus_key.Converter.Coded.{
  is_encodable, IsReversed, converted-is_read, decode_pairs-encode_units,
}

vni_map-IsReversed :
    (lower : ℕ → Bool)
    → IsReversed (build_reverse_pair_map lower vni_map no_pairs) vni_map decode_lo_hi
unfolding find build_reverse_pair_map decode_unit decode_lo_hi add_reverse
vni_map-IsReversed lower = record { entries = refl; high_ends = refl; high_units = refl }

cp1258_map-IsReversed :
    (lower : ℕ → Bool)
    → IsReversed (build_reverse_pair_map lower cp1258_map no_pairs) cp1258_map decode_lo_hi
unfolding find build_reverse_pair_map decode_unit decode_lo_hi add_reverse
cp1258_map-IsReversed lower = record { entries = refl; high_ends = refl; high_units = refl }

-- The pairs of Unicode Compound, without single units.
abbrev compound_pairs : (ℕ → Bool) → ReversePairMap
compound_pairs lower = record { single = []; pair = compound_reverse lower unicode_compound_map [] }

compound_map-IsReversed :
    (lower : ℕ → Bool) → IsReversed (compound_pairs lower) unicode_compound_map decode_compound
unfolding find compound_reverse decode_unit decode_compound add_reverse
compound_map-IsReversed lower = record { entries = refl; high_ends = refl; high_units = refl }

abbrev ends_in_mark : ℕ × ℕ → Bool
ends_in_mark e = is_combining_mark (e.0 % 0x10000)

compound_reverse-marks :
    (lower : ℕ → Bool) → all ends_in_mark (compound_reverse lower unicode_compound_map []) ≡ true
unfolding compound_reverse decode_compound add_reverse is_combining_mark
compound_reverse-marks lower = refl

find-mark :
    (rev : CodeMap) (u v c : ℕ)
    → all ends_in_mark rev ≡ true
    → v < 0x10000
    → find (pair_key u v) rev ≡ some c
    → is_combining_mark v ≡ true
find-mark rev u v c h k e =
    let p : (pair_key u v % 0x10000) ≡ v = omega (arith, k) in
    rw (sym p) (find-all ends_in_mark rev (pair_key u v) c h e)

decode_marks-decode_pairs :
    (rev : CodeMap) (s : Wstring)
    → all ends_in_mark rev ≡ true
    → is_narrow s ≡ true
    → decode_marks rev s ≡ decode_pairs (record { single = []; pair = rev }) s
unfolding decode_marks decode_pairs decode_unit find
decode_marks-decode_pairs rev [] h n = refl
decode_marks-decode_pairs rev (u ∷ []) h n = refl
decode_marks-decode_pairs rev (u ∷ v ∷ s) h n =
    let r = decode_marks-decode_pairs rev s h in
    let r' = decode_marks-decode_pairs rev (v ∷ s) h in
    let m = find-mark rev u v in
    elim (Option-cases (find (pair_key u v) rev)) [
      | inl e ↦ ground (arith, e)
      | inr (c, e) ↦ ground (arith, m c, e)
    ]

-- The table that a code table encodes by.
abbrev pub table_of : CodeTable → CodeMap
table_of unicode = []
table_of tcvn3 = tcvn3_map
table_of vni_windows = vni_map
table_of unicode_compound = unicode_compound_map
table_of vietnamese_locale = cp1258_map

-- In every code table but TCVN3, a text of ASCII and of letters of the table is read back as it was
-- when it is encoded and decoded.
pub decode_string-encode_string :
    (ct : Ctype) (table : CodeTable) (s : Wstring)
    → table ≢ tcvn3
    → all (is_encodable (table_of table)) s ≡ true
    → decode_string ct (encode_string s table) table ≡ s
unfolding decode_string encode_string convert_char
decode_string-encode_string ct unicode s n h = refl
decode_string-encode_string ct tcvn3 s n h = elim (n refl) [ ]
decode_string-encode_string ct vni_windows s n h =
    let lower = is_lower_viet ct in
    let maps = build_reverse_pair_map lower vni_map no_pairs in
    let f = λ (c : ℕ). converted-is_read maps vni_map decode_lo_hi c (vni_map-IsReversed lower) in
    (decode_pairs-encode_units maps vni_windows (is_encodable vni_map) f s h).0
decode_string-encode_string ct vietnamese_locale s n h =
    let lower = is_lower_viet ct in
    let maps = build_reverse_pair_map lower cp1258_map no_pairs in
    let f =
      λ (c : ℕ). converted-is_read maps cp1258_map decode_lo_hi c (cp1258_map-IsReversed lower) in
    (decode_pairs-encode_units maps vietnamese_locale (is_encodable cp1258_map) f s h).0
decode_string-encode_string ct unicode_compound s n h =
    let lower = is_lower_viet ct in
    let maps = compound_pairs lower in
    let m = unicode_compound_map in
    let f = λ (c : ℕ). converted-is_read maps m decode_compound c (compound_map-IsReversed lower) in
    let r = decode_pairs-encode_units maps unicode_compound (is_encodable m) f s h in
    let e = encode_units unicode_compound s in
    decode_marks-decode_pairs maps.pair e (compound_reverse-marks lower) r.2 ∙ r.0
