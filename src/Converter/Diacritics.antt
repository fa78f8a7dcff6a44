-- ===== src/Converter/Diacritics.antt =====
-- `RemoveDiacritics` of src/core/engine/CodeTableConverter.cpp on the letters that the engine composes.
use nexus_key.Base.{
  ℕ, ◌-◌, ◌≡◌, refl, ap, Bool, true, false, not, ◌&&◌, ◌||◌, ◌==◌, ==_iff, &&-left, &&-right, leb,
  if◌then◌else◌, all, List, [], ◌∷◌, map, arith,
}
use nexus_key.State.{
  CharState, Modifier, no_mod, circumflex, breve, horn, stroke, Tone, no_tone, is_vowel_base,
}
use nexus_key.Letters.{
  Ctype, FollowsUnicode, is_lower_letter, to_upper_vietnamese, toned_vowel, compose, is_letter,
  takes_modifier, takes_tone, lower_char, good_lem, lower_char-is_lower, compose-lower_char,
  all_from, all_from_sound, takes_modifier_range,
}
use nexus_key.Converter.{find}
use nexus_key.Converter.Tables.{CodeMap}
use nexus_key.Converter.Reverse.{decode_unit}
use nexus_key.Converter.CaseText.{
  row_base, map_row, map_rows, modified_letters, write_entries, diacritics_map, remove_diacritics,
}

-- The case mapping of small letters alone.
abbrev small : Ctype
small = record { towlower = λ c. c; towupper = λ c. c - 0x20; iswupper = λ c. false }

to_upper_vietnamese-small :
    (ct : Ctype) (c : ℕ)
    → FollowsUnicode ct
    → is_lower_letter c ≡ true
    → to_upper_vietnamese ct c ≡ to_upper_vietnamese small c
unfolding to_upper_vietnamese
to_upper_vietnamese-small ct c u h = ground (arith, u.upper_ascii c)

abbrev is_ascii_small : ℕ → Bool
is_ascii_small c = leb b'a' c && leb c b'z'

map_row-small :
    (ct : Ctype) (base : ℕ) (row : List ℕ) (m : CodeMap)
    → FollowsUnicode ct
    → is_ascii_small base ≡ true
    → all is_lower_letter row ≡ true
    → map_row ct base row m ≡ map_row small base row m
unfolding map_row
map_row-small ct base [] m u b h = refl
map_row-small ct base (c ∷ row) m u b h =
    let e = to_upper_vietnamese-small ct c u (&&-left _ _ h) in
    let f : ct.towupper base ≡ base - 0x20 = ground (arith, u.upper_ascii base) in
    rw (e, f) (map_row-small ct base row _ u b (&&-right _ _ h))

map_rows-small :
    (ct : Ctype) (bases : List ℕ) (rows : List (List ℕ)) (m : CodeMap)
    → FollowsUnicode ct
    → all is_ascii_small bases ≡ true
    → all (all is_lower_letter) rows ≡ true
    → map_rows ct bases rows m ≡ map_rows small bases rows m
unfolding map_rows
map_rows-small ct [] rows m u b h = refl
map_rows-small ct (base ∷ bases) [] m u b h = refl
map_rows-small ct (base ∷ bases) (row ∷ rows) m u b h =
    rw (map_row-small ct base row m u (&&-left _ _ b) (&&-left _ _ h))
      (map_rows-small ct bases rows _ u (&&-right _ _ b) (&&-right _ _ h))

diacritics_map-small : (ct : Ctype) → FollowsUnicode ct → diacritics_map ct ≡ diacritics_map small
unfolding diacritics_map
diacritics_map-small ct u =
    ap (write_entries modified_letters) (map_rows-small ct row_base toned_vowel [] u refl refl)

abbrev removed : ℕ → ℕ
removed c = decode_unit (diacritics_map small) c

-- A letter is read as its base, in either case.
abbrev is_removed : Modifier → Tone → ℕ → Bool
is_removed m t b =
    removed (lower_char b m t) == b
    && removed (to_upper_vietnamese small (lower_char b m t)) == b - 0x20

check : Modifier → Tone → ℕ → Bool
check m t b = not (takes_modifier b m && takes_tone b t) || is_removed m t b

table : (m : Modifier) (t : Tone) → all_from b'a' 26 (check m t) ≡ true
unfolding check all_from lower_char decode_unit diacritics_map map_rows map_row to_upper_vietnamese
    find is_vowel_base nexus_key.Letters.apply_modifier nexus_key.Letters.apply_tone
table no_mod no_tone = refl
table no_mod _ = refl
table circumflex no_tone = refl
table circumflex _ = refl
table breve no_tone = refl
table breve _ = refl
table horn no_tone = refl
table horn _ = refl
table stroke no_tone = refl
table stroke _ = refl

removed-lower_char :
    (b : ℕ) (m : Modifier) (t : Tone)
    → (takes_modifier b m && takes_tone b t) ≡ true
    → is_removed m t b ≡ true
unfolding check
removed-lower_char b m t h =
    let at = all_from_sound 26 b'a' (check m t) b (table m t) in
    ground (arith, takes_modifier_range b m, at)

removed-compose :
    (ct : Ctype) (s : CharState)
    → FollowsUnicode ct
    → is_letter s ≡ true
    → removed (compose ct s) ≡ (if s.is_upper then s.base - 0x20 else s.base)
removed-compose ct s u h =
    let c : ℕ = lower_char s.base s.mod_ s.tone in
    let l = lower_char-is_lower s.base s.mod_ s.tone (good_lem s.base s.mod_ s.tone h) in
    let r = removed-lower_char s.base s.mod_ s.tone h in
    let low = (==_iff (removed c) s.base).0 (&&-left _ _ r) in
    let up = (==_iff (removed (to_upper_vietnamese small c)) (s.base - 0x20)).0 (&&-right _ _ r) in
    rw (compose-lower_char ct s h, to_upper_vietnamese-small ct c u l) (cased s.is_upper c low up)
  where
    cased :
        (upper : Bool) (c : ℕ)
        → removed c ≡ s.base
        → removed (to_upper_vietnamese small c) ≡ s.base - 0x20
        → removed (if upper then to_upper_vietnamese small c else c)
          ≡ (if upper then s.base - 0x20 else s.base)
    cased true c low up = up
    cased false c low up = low

-- Where the C library follows Unicode, `RemoveDiacritics` of the text that the engine composes of
-- letters is the text of their bases, a capital for each state that is in upper case.
pub remove_diacritics-compose :
    (ct : Ctype) (states : List CharState)
    → FollowsUnicode ct
    → all is_letter states ≡ true
    → remove_diacritics ct (map (compose ct) states)
      ≡ map (λ s. if s.is_upper then s.base - 0x20 else s.base) states
unfolding remove_diacritics
remove_diacritics-compose ct [] u h = refl
remove_diacritics-compose ct (s ∷ states) u h =
    let e : decode_unit (diacritics_map ct) (compose ct s)
        ≡ (if s.is_upper then s.base - 0x20 else s.base) =
      rw (diacritics_map-small ct u) (removed-compose ct s u (&&-left _ _ h)) in
    rw e (
      ap (λ t. (if s.is_upper then s.base - 0x20 else s.base) ∷ t)
        (remove_diacritics-compose ct states u (&&-right _ _ h)))
