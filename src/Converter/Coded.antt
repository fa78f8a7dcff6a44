-- ===== src/Converter/Coded.antt =====
-- The tables checked entry by entry, and the texts that are read back from them.
use nexus_key.Base.{
  ℕ, ◌%◌, ◌<◌, ◌≡◌, refl, ap, Bool, true, ◌||◌, ltb, leb, all, is_some, [], ◌∷◌, ◌++◌, Wstring,
  Option-cases, inl, inr, arith,
}
use nexus_key.Config.{CodeTable}
use nexus_key.Converter.{find, EncodedChar, converted, convert_char, encode_units, written}
use nexus_key.Converter.Tables.{CodeMap}
use nexus_key.Converter.Reverse.{ReversePairMap, decode_unit, decode_pairs}
use nexus_key.Converter.Pairs.{find-all, is_first, is_read, is_narrow, starts_first, decode-written}

-- ASCII, or a character of the table.
abbrev pub is_encodable : CodeMap → ℕ → Bool
is_encodable m c = ltb c 0x80 || is_some (find c m)

-- Every entry is read back, and no entry has to do with ASCII.
pub record IsReversed (maps : ReversePairMap) (m : CodeMap) (decode : ℕ → EncodedChar)
    : Type 0 where
  pub entries : all (λ e. is_read maps (e.0) (decode (e.1))) m ≡ true
  pub high_ends : all (λ e. leb 0x80 (e.0 % 0x10000)) maps.pair ≡ true
  pub high_units : all (λ e. leb 0x80 (e.0)) maps.single ≡ true

ascii-is_first :
    (pairs : CodeMap) (c : ℕ)
    → all (λ e. leb 0x80 (e.0 % 0x10000)) pairs ≡ true
    → c < 0x80
    → is_first pairs c ≡ true
ascii-is_first [] c h k = ground arith
ascii-is_first (e ∷ pairs) c h k = let r = ascii-is_first pairs c in ground arith

pub ascii-decode_unit :
    (single : CodeMap) (c : ℕ)
    → all (λ e. leb 0x80 (e.0)) single ≡ true
    → c < 0x80
    → decode_unit single c ≡ c
unfolding decode_unit find
ascii-decode_unit [] c h k = refl
ascii-decode_unit ((x, w) ∷ single) c h k = let r = ascii-decode_unit single c in ground arith

pub converted-is_read :
    (maps : ReversePairMap) (m : CodeMap) (decode : ℕ → EncodedChar) (c : ℕ)
    → IsReversed maps m decode
    → is_encodable m c ≡ true
    → is_read maps c (converted m decode c) ≡ true
unfolding converted
converted-is_read maps m decode c u h =
    let f = ascii-is_first maps.pair c u.high_ends in
    let d = ascii-decode_unit maps.single c u.high_units in
    elim (Option-cases (find c m)) [
      | inl n ↦ rw (converted, n) (ground (arith, f, d))
      | inr (v, e) ↦
          rw (converted, e) (find-all (λ e. is_read maps (e.0) (decode (e.1))) m c v u.entries e)
    ]

starts_first-written :
    (maps : ReversePairMap) (c : ℕ) (enc : EncodedChar) (rest : Wstring)
    → is_read maps c enc ≡ true
    → is_narrow rest ≡ true
    → (starts_first maps.pair (written enc ++ rest) ≡ true)
      × (is_narrow (written enc ++ rest) ≡ true)
starts_first-written maps c enc rest h n = ground arith

pub decode_pairs-encode_units :
    (maps : ReversePairMap) (to : CodeTable) (ok : ℕ → Bool)
    → ((c : ℕ) → ok c ≡ true → is_read maps c (convert_char c to) ≡ true)
    → (s : Wstring) → all ok s ≡ true
    → let e = encode_units to s in
      (decode_pairs maps e ≡ s) × (starts_first maps.pair e ≡ true) × (is_narrow e ≡ true)
unfolding encode_units decode_pairs
decode_pairs-encode_units maps to ok f [] h = (refl, refl, refl)
decode_pairs-encode_units maps to ok f (c ∷ s) h =
    let r = decode_pairs-encode_units maps to ok f s (ground arith) in
    let k = f c (ground arith) in
    let d = decode-written maps c (convert_char c to) (encode_units to s) k in
    let n = starts_first-written maps c (convert_char c to) (encode_units to s) k in
    (rw (d r.1) (ap (λ t. c ∷ t) r.0), (n r.2).0, (n r.2).1)
