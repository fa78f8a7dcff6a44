-- ===== src/Converter/Pairs.antt =====
-- Why pairs of units are read back as they were written: no unit that begins an encoded character
-- ends a pair.
use nexus_key.Base.{
  ℕ, ◌%◌, ◌≡◌, refl, Bool, true, false, not, ◌&&◌, ◌==◌, ltb, all, if◌then◌else◌, Option, none,
  some, [], ◌∷◌, ◌++◌, Wstring, Bool-cases, inl, inr, arith,
}
use nexus_key.Converter.{find, EncodedChar, written}
use nexus_key.Converter.Tables.{CodeMap}
use nexus_key.Converter.Reverse.{ReversePairMap, pair_key, decode_unit, decode_pairs}

-- An entry that is found satisfies what holds of all entries.
pub find-all :
    (p : ℕ × ℕ → Bool) (m : CodeMap) (k v : ℕ)
    → all p m ≡ true
    → find k m ≡ some v
    → p (k, v) ≡ true
unfolding find
find-all p [] k v h e = ground arith
find-all p ((x, w) ∷ m) k v h e = let r = find-all p m k v in ground arith

-- A unit that does not end a pair of the map.
abbrev pub is_first : CodeMap → ℕ → Bool
is_first pairs u = ltb u 0x10000 && all (λ e. not (e.0 % 0x10000 == u)) pairs

find-is_first :
    (pairs : CodeMap) (u v : ℕ) → is_first pairs v ≡ true → find (pair_key u v) pairs ≡ none
unfolding find
find-is_first [] u v h = refl
find-is_first ((x, w) ∷ pairs) u v h = let r = find-is_first pairs u v in ground arith

-- The units of 16 bits.
abbrev pub is_narrow : Wstring → Bool
is_narrow = all (λ u. ltb u 0x10000)

abbrev pub starts_first : CodeMap → Wstring → Bool
starts_first pairs [] = true
starts_first pairs (u ∷ rest) = is_first pairs u

-- An encoded character is read back: a pair by the map of pairs, a unit by that of units.
abbrev pub reads : Option ℕ → ℕ → Bool
reads none c = false
reads (some d) c = d == c

abbrev pub is_read : ReversePairMap → ℕ → EncodedChar → Bool
is_read maps c enc =
    is_first maps.pair enc.unit_0
    && (if enc.count == 2
        then ltb enc.unit_1 0x10000 && reads (find (pair_key enc.unit_0 enc.unit_1) maps.pair) c
        else decode_unit maps.single enc.unit_0 == c)

decode-pair :
    (maps : ReversePairMap) (c u v : ℕ) (rest : Wstring)
    → reads (find (pair_key u v) maps.pair) c ≡ true
    → decode_pairs maps (u ∷ v ∷ rest) ≡ c ∷ decode_pairs maps rest
unfolding decode_pairs
decode-pair maps c u v rest h = ground arith

decode-unit :
    (maps : ReversePairMap) (c u : ℕ) (rest : Wstring)
    → (decode_unit maps.single u == c) ≡ true
    → starts_first maps.pair rest ≡ true
    → decode_pairs maps (u ∷ rest) ≡ c ∷ decode_pairs maps rest
unfolding decode_pairs
decode-unit maps c u [] h k = ground arith
decode-unit maps c u (v ∷ rest) h k = let n = find-is_first maps.pair u v k in ground arith

pub decode-written :
    (maps : ReversePairMap) (c : ℕ) (enc : EncodedChar) (rest : Wstring)
    → is_read maps c enc ≡ true
    → starts_first maps.pair rest ≡ true
    → decode_pairs maps (written enc ++ rest) ≡ c ∷ decode_pairs maps rest
decode-written maps c enc rest h k =
    let p = decode-pair maps c enc.unit_0 enc.unit_1 rest in
    let s = decode-unit maps c enc.unit_0 rest in
    elim (Bool-cases (enc.count == 2)) [
      | inl e ↦ rw e (p (ground arith))
      | inr e ↦ rw e (s (ground arith) k)
    ]
