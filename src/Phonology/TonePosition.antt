-- ===== src/Phonology/TonePosition.antt =====
-- `ComputeTonePosition` of Phonotactics.cpp: which vowel of a nucleus bears the tone. A position
-- of `SIZE_MAX` is `none`.
use nexus_key.Base.{
  ℕ, zero, suc, ◌+◌, ◌-◌, Bool, true, false, not, ◌&&◌, ◌||◌, ◌==◌, ltb, leb, if◌then◌else◌, Option,
  none, some, List, [], ◌∷◌, Wstring, length, get_elem?,
}
use nexus_key.Scan.{find_last, find_first}
use nexus_key.Letters.{
  cell, diphthong_vowel_index, diphthong_classic, diphthong_modern, is_triphthong,
  is_bare_smart_triphthong_tail,
}
use nexus_key.Phonology.Lexicon.{VowelInfo, vowel_mod_value, decompose}
use nexus_key.Phonology.Syllable.{empty}

-- The first `room` vowels of a text.
unfoldable pub collect : ℕ → Wstring → List VowelInfo
collect zero cs = []
collect (suc room) [] = []
collect (suc room) (c ∷ cs) =
    let v = decompose c in
    let skip = collect (suc room) cs in
    let keep = v ∷ collect room cs in if v.base == 0 then skip else keep

abbrev pub is_horned : VowelInfo → Bool
is_horned v = vowel_mod_value v.vmod == 3

abbrev pub is_circumflexed_or_breved : VowelInfo → Bool
is_circumflexed_or_breved v = vowel_mod_value v.vmod == 1 || vowel_mod_value v.vmod == 2

-- `vowels[i]`, which the code reads below the count only.
abbrev pub base_at : List VowelInfo → ℕ → ℕ
base_at vs i = elim (get_elem? vs i) [ none ↦ 0 | some v ↦ v.base ]

abbrev pub is_plain_at : List VowelInfo → ℕ → Bool
is_plain_at vs i = elim (get_elem? vs i) [ none ↦ false | some v ↦ vowel_mod_value v.vmod == 0 ]

-- The diphthong table's rule for two indices, of which -1 is `none`.
unfoldable pub diphthong_rule : Bool → Option ℕ → Option ℕ → Option ℕ
diphthong_rule modern none li = none
diphthong_rule modern (some fi) none = none
diphthong_rule modern (some fi) (some li) =
    some (cell (if modern then diphthong_modern else diphthong_classic) fi li)

-- The pair of adjacent vowels that the diphthong table is asked about.
pub record Pair : Type 0 where
  pub first_pos : ℕ
  pub last_pos : ℕ
  pub rule : Option ℕ
  pub shifted : Bool

-- The last two vowels; of three or more the two before the last, if the table has a rule there.
unfoldable pub choose_pair : List VowelInfo → Bool → Pair
choose_pair vs modern =
    let count = length vs in
    let first = diphthong_vowel_index (base_at vs (count - 2)) in
    let last = diphthong_vowel_index (base_at vs (count - 1)) in
    let shift = diphthong_vowel_index (base_at vs (count - 3)) in
    let default : Pair = record {
      first_pos = count - 2;
      last_pos = count - 1;
      rule = diphthong_rule modern first last;
      shifted = false;
    } in
    if leb 3 count
    then (elim (diphthong_rule modern shift first) [
      | none ↦ default
      | some r ↦ if r == 0 then default else record {
        first_pos = count - 3;
        last_pos = count - 2;
        rule = diphthong_rule modern shift first;
        shifted = true;
      }
    ])
    else default

-- Rule 3 asks whether something follows the pair, unless the last vowel only repeats.
unfoldable pub resolve_rule : List VowelInfo → Bool → Pair → ℕ → ℕ
resolve_rule vs has_coda p r =
    let count = length vs in
    if r == 3
    then (if p.shifted && base_at vs (count - 1) == base_at vs (count - 2)
        then 1
        else if ltb (p.last_pos + 1) count || has_coda
        then 2
        else 1)
    else r

unfoldable pub pair_position : List VowelInfo → Bool → Bool → Option ℕ
pair_position vs has_coda modern =
    let p = choose_pair vs modern in
    elim p.rule [
      | none ↦ none
      | some r ↦
          (let rule = resolve_rule vs has_coda p r in
            if rule == 1 then some p.first_pos else if rule == 2 then some p.last_pos else none)
    ]

-- P3, for two vowels or more.
unfoldable pub cluster_position : List VowelInfo → Bool → Bool → Option ℕ
cluster_position vs has_coda modern =
    let count = length vs in
    if modern
      && (leb 3 count
          && is_triphthong (base_at vs (count - 3)) (base_at vs (count - 2))
              (base_at vs (count - 1)))
    then some (count - 2)
    else if count == 3
        && (is_plain_at vs 0
            && (is_plain_at vs 1
                && (is_plain_at vs 2
                    && is_bare_smart_triphthong_tail (base_at vs 0) (base_at vs 1) (base_at vs 2))))
    then some (count - 1)
    else pair_position vs has_coda modern

-- P1 to P4 on the collected vowels.
unfoldable pub place : List VowelInfo → Bool → Bool → Option ℕ
place vs has_coda modern = if length vs == 0 then none else (elim (find_last is_horned 0 vs) [
  | some i ↦ some i
  | none ↦ elim (find_first is_circumflexed_or_breved 0 vs) [
    | some i ↦ some i
    | none ↦
        (let last = some (length vs - 1) in
          if leb 2 (length vs)
          then (elim (cluster_position vs has_coda modern) [ some i ↦ some i | none ↦ last ])
          else last)
  ]
])

unfoldable pub tone_position : Wstring → Wstring → Bool → Option ℕ
tone_position vowels coda modern = place (collect 16 vowels) (not (empty coda)) modern
