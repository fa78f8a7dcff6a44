-- ===== src/Converter/Tcvn3.antt =====
-- Texts that are encoded in TCVN3 and decoded again: the capitals with a tone come back as small
-- letters.
use nexus_key.Base.{
  ℕ, ◌≡◌, ◌∙◌, refl, sym, ap, Bool, true, false, ◌&&◌, ◌||◌, ◌==◌, ==_iff, &&-left, &&-right, leb,
  if◌then◌else◌, all, [], ◌∷◌, map, Wstring, Option-cases, inl, inr, arith,
}
use nexus_key.Config.{tcvn3}
use nexus_key.Letters.{
  Ctype, FollowsUnicode, is_lower_letter, to_lower_vietnamese, to_lower_vietnamese-fixed,
  to_lower-to_upper,
}
use nexus_key.Converter.{find, convert_char, converted, encode_string, encode_units}
use nexus_key.Converter.Tables.{CodeMap, tcvn3_map}
use nexus_key.Converter.Reverse.{
  is_lower_viet, tcvn3_reverse, decode_unit, decode_tcvn3, decode_string, add_reverse,
}
use nexus_key.Converter.Pairs.{find-all}
use nexus_key.Converter.Coded.{is_encodable, ascii-decode_unit}

-- The case mapping of Vietnamese letters alone.
abbrev plain : Ctype
plain = record {
  towlower = λ c. if c == 0x128 then 0x129 else if c == 0x168 then 0x169 else c;
  towupper = λ c. c;
  iswupper = λ c. false;
}

-- A letter, small or capital.
abbrev is_cased : ℕ → Bool
is_cased c = is_lower_letter c || is_lower_letter (to_lower_vietnamese plain c)

to_lower_vietnamese-plain :
    (ct : Ctype) (c : ℕ)
    → FollowsUnicode ct
    → is_cased c ≡ true
    → leb 0x80 c ≡ true
    → to_lower_vietnamese ct c ≡ to_lower_vietnamese plain c
unfolding to_lower_vietnamese
to_lower_vietnamese-plain ct c u h k =
    ground (arith, u.lower_fixed c, u.lower_i_tilde, u.lower_u_tilde)

is_lower_viet-letter :
    (ct : Ctype) (c : ℕ)
    → FollowsUnicode ct
    → is_cased c ≡ true
    → leb 0x80 c ≡ true
    → is_lower_viet ct c ≡ is_lower_letter c
unfolding is_lower_viet
is_lower_viet-letter ct c u h k =
    let l = to_lower_vietnamese-plain ct c u h k in
    let f = to_lower_vietnamese-fixed ct c u in let p = to_lower-to_upper ct c u in ground arith

abbrev is_table_letter : ℕ → Bool
is_table_letter c = is_cased c && leb 0x80 c

abbrev values_cased : CodeMap → Bool
values_cased = all (λ e. is_table_letter (e.1))

module _ (p q : ℕ → Bool) (same : (c : ℕ) → is_table_letter c ≡ true → p c ≡ q c) where
  add_reverse-same :
      (k c : ℕ) (rev : CodeMap)
      → is_table_letter c ≡ true
      → values_cased rev ≡ true
      → (add_reverse p k c rev ≡ add_reverse q k c rev)
        × (values_cased (add_reverse q k c rev) ≡ true)
  unfolding add_reverse
  add_reverse-same k c [] h v = (refl, ground arith)
  add_reverse-same k c ((x, d) ∷ rev) h v =
      let r = add_reverse-same k c rev h in let s = same c h in let s' = same d in ground arith

  tcvn3_reverse-same :
      (m rev : CodeMap)
      → all (λ e. is_table_letter (e.0)) m ≡ true
      → values_cased rev ≡ true
      → tcvn3_reverse p m rev ≡ tcvn3_reverse q m rev
  unfolding tcvn3_reverse
  tcvn3_reverse-same [] rev h v = refl
  tcvn3_reverse-same ((c, k) ∷ m) rev h v =
      let a = add_reverse-same k c rev (ground arith) v in
      rw a.0 (tcvn3_reverse-same m (add_reverse q k c rev) (ground arith) a.1)

abbrev tcvn3_letters : CodeMap
tcvn3_letters = tcvn3_reverse is_lower_letter tcvn3_map []

-- A character that is read back up to its case.
abbrev is_read_small : ℕ → ℕ → Bool
is_read_small c d =
    is_table_letter c
    && is_table_letter d
    && to_lower_vietnamese plain d == to_lower_vietnamese plain c

tcvn3_map-cased : all (λ e. is_table_letter (e.0)) tcvn3_map ≡ true
unfolding to_lower_vietnamese
tcvn3_map-cased = refl

tcvn3_map-is_read_small :
    all (λ e. is_read_small (e.0) (decode_unit tcvn3_letters (e.1))) tcvn3_map ≡ true
unfolding to_lower_vietnamese tcvn3_reverse add_reverse decode_unit find
tcvn3_map-is_read_small = refl

tcvn3_letters-high : all (λ e. leb 0x80 (e.0)) tcvn3_letters ≡ true
unfolding tcvn3_reverse add_reverse
tcvn3_letters-high = refl

is_read_small-lower :
    (ct : Ctype) (c d : ℕ)
    → FollowsUnicode ct
    → is_read_small c d ≡ true
    → to_lower_vietnamese ct d ≡ to_lower_vietnamese ct c
is_read_small-lower ct c d u h =
    let p = to_lower_vietnamese-plain ct c u in
    let p' = to_lower_vietnamese-plain ct d u in
    let e = (==_iff (to_lower_vietnamese plain d) (to_lower_vietnamese plain c)).0 in
    let eq = e (&&-right _ _ h) in
    let c_d = &&-left _ _ h in
    let a = &&-left _ _ c_d in
    let b = &&-right _ _ c_d in
    p' (&&-left _ _ b) (&&-right _ _ b) ∙ eq ∙ sym (p (&&-left _ _ a) (&&-right _ _ a))

decode_unit-convert_char :
    (ct : Ctype) (c : ℕ)
    → FollowsUnicode ct
    → is_encodable tcvn3_map c ≡ true
    → to_lower_vietnamese ct (decode_unit tcvn3_letters (convert_char c tcvn3).unit_0)
      ≡ to_lower_vietnamese ct c
unfolding convert_char
decode_unit-convert_char ct c u h =
    let d = ascii-decode_unit tcvn3_letters c tcvn3_letters-high in
    elim (Option-cases (find c tcvn3_map)) [
      | inl n ↦ rw (converted, n) (ap (to_lower_vietnamese ct) (d (ground arith)))
      | inr (v, e) ↦
          let r =
            find-all (λ e. is_read_small (e.0) (decode_unit tcvn3_letters (e.1))) tcvn3_map c v
              tcvn3_map-is_read_small e in
          rw (converted, e) (is_read_small-lower ct c (decode_unit tcvn3_letters v) u r)
    ]

convert_char-count : (c : ℕ) → (convert_char c tcvn3).count ≡ 1
unfolding convert_char
convert_char-count c = elim (Option-cases (find c tcvn3_map)) [
  | inl n ↦ rw (converted, n) refl
  | inr (v, e) ↦ rw (converted, e) refl
]

decode_tcvn3-encode_units :
    (low : ℕ → ℕ) (rev : CodeMap) (ok : ℕ → Bool)
    → ((c : ℕ) → ok c ≡ true → low (decode_unit rev (convert_char c tcvn3).unit_0) ≡ low c)
    → (s : Wstring) → all ok s ≡ true
    → map low (decode_tcvn3 rev (encode_units tcvn3 s)) ≡ map low s
unfolding decode_tcvn3 encode_units
decode_tcvn3-encode_units low rev ok f [] h = refl
decode_tcvn3-encode_units low rev ok f (c ∷ s) h =
    let r = decode_tcvn3-encode_units low rev ok f s (&&-right _ _ h) in
    rw (convert_char-count c, f c (&&-left _ _ h)) (ap (λ t. low c ∷ t) r)

-- Where the C library follows Unicode, a text of ASCII and of letters of the TCVN3 table is read back
-- up to the case of its letters when it is encoded and decoded in TCVN3.
pub decode_string-tcvn3 :
    (ct : Ctype) (s : Wstring)
    → FollowsUnicode ct
    → all (is_encodable tcvn3_map) s ≡ true
    → map (to_lower_vietnamese ct) (decode_string ct (encode_string s tcvn3) tcvn3)
      ≡ map (to_lower_vietnamese ct) s
unfolding decode_string encode_string
decode_string-tcvn3 ct s u h =
    let e =
      tcvn3_reverse-same (is_lower_viet ct) is_lower_letter
        (λ c k. is_lower_viet-letter ct c u (ground arith) (ground arith)) tcvn3_map []
        tcvn3_map-cased refl in
    rw e (
      decode_tcvn3-encode_units (to_lower_vietnamese ct) tcvn3_letters (is_encodable tcvn3_map)
        (λ c. decode_unit-convert_char ct c u) s h)
