-- ===== src/Phonology/Placement.antt =====
-- Where `TonePosition` puts the tone.
use native.Mathlib.Nat.{sub-zero}
use nexus_key.Base.{
  ℕ, ◌-◌, ◌≤◌, ◌<◌, ◌≡◌, Bool, false, none, some, List, inl, inr, length, Bool-cases, Option-cases,
  if◌then◌else◌, ◌==◌, leb, arith, Wstring, ◌⊎◌, not,
}
use nexus_key.Phonology.TonePosition.{
  collect, is_horned, is_circumflexed_or_breved, choose_pair, pair_position, cluster_position,
  place, tone_position,
}
use nexus_key.Phonology.Lexicon.{VowelInfo}
use nexus_key.Phonology.Syllable.{empty}
use nexus_key.Scan.{
  find_last, find_first, Nowhere, IsLast, IsFirst, find_last-none, find_last-some, find_first-none,
  find_first-some, Holds-lt,
}

-- What holds of the position that is found: it lies in the nucleus; a horned vowel attracts the
-- tone, the last one if there are several; without a horn the first circumflex or breve does.
pub record IsPlaced (vs : List VowelInfo) (i : ℕ) : Type 0 where
  pub bound : i < length vs
  pub horn_first : IsLast is_horned vs i ⊎ Nowhere is_horned vs
  pub modified_next :
      Nowhere is_horned vs
      → IsFirst is_circumflexed_or_breved vs i ⊎ Nowhere is_circumflexed_or_breved vs

choose_pair-bound :
    (vs : List VowelInfo) (modern : Bool)
    → 2 ≤ length vs
    → ((choose_pair vs modern).first_pos < length vs)
      × ((choose_pair vs modern).last_pos < length vs)
unfolding choose_pair
choose_pair-bound vs modern h = ground arith

pair_position-bound :
    (vs : List VowelInfo) (has_coda modern : Bool) (i : ℕ)
    → 2 ≤ length vs
    → pair_position vs has_coda modern ≡ some i
    → i < length vs
unfolding pair_position
pair_position-bound vs has_coda modern i h e = ground (arith, choose_pair-bound vs modern)

cluster_position-bound :
    (vs : List VowelInfo) (has_coda modern : Bool) (i : ℕ)
    → 2 ≤ length vs
    → cluster_position vs has_coda modern ≡ some i
    → i < length vs
unfolding cluster_position
cluster_position-bound vs has_coda modern i h e =
    ground (arith, pair_position-bound vs has_coda modern i)

-- P3 and P4 stay in the nucleus and find a position in any nucleus.
tail_position :
    (vs : List VowelInfo) (has_coda modern : Bool)
    → 0 < length vs
    → find_last is_horned 0 vs ≡ none
    → find_first is_circumflexed_or_breved 0 vs ≡ none
    → (i : ℕ) × (place vs has_coda modern ≡ some i) × (i < length vs)
unfolding place
tail_position vs has_coda modern h l f = elim (Option-cases (cluster_position vs has_coda modern)) [
  | inl e ↦ (length vs - 1, ground arith, omega arith)
  | inr (i, e) ↦ elim (Bool-cases (leb 2 (length vs))) [
    | inl t ↦ (i, ground arith, ground (arith, cluster_position-bound vs has_coda modern i))
    | inr t ↦ (length vs - 1, ground arith, omega arith)
  ]
]

place_horned :
    (vs : List VowelInfo) (has_coda modern : Bool) (i : ℕ)
    → find_last is_horned 0 vs ≡ some i
    → place vs has_coda modern ≡ (if length vs == 0 then none else some i)
unfolding place
place_horned vs has_coda modern i e = rw e

place_modified :
    (vs : List VowelInfo) (has_coda modern : Bool) (i : ℕ)
    → find_last is_horned 0 vs ≡ none
    → find_first is_circumflexed_or_breved 0 vs ≡ some i
    → place vs has_coda modern ≡ (if length vs == 0 then none else some i)
unfolding place
place_modified vs has_coda modern i n e = rw (n, e)

horned-IsPlaced : (vs : List VowelInfo) (i : ℕ) → find_last is_horned 0 vs ≡ some i → IsPlaced vs i
horned-IsPlaced vs i e =
    let f = find_last-some is_horned 0 vs i e in
    let l : IsLast is_horned vs i = rw (sub-zero i) at f.1 in
    let (v, at, h) = l.0 in
    record {
      bound = Holds-lt is_horned vs i l.0;
      horn_first = inl l;
      modified_next = λ n. let x : is_horned v ≡ false = n i v tt at in absurd (ground arith);
    }

modified-IsPlaced :
    (vs : List VowelInfo) (i : ℕ)
    → find_last is_horned 0 vs ≡ none
    → find_first is_circumflexed_or_breved 0 vs ≡ some i
    → IsPlaced vs i
modified-IsPlaced vs i n e =
    let f = find_first-some is_circumflexed_or_breved 0 vs i e in
    let l : IsFirst is_circumflexed_or_breved vs i = rw (sub-zero i) at f.1 in
    record {
      bound = Holds-lt is_circumflexed_or_breved vs i l.0;
      horn_first = inr (find_last-none is_horned 0 vs n);
      modified_next = λ k. inl l;
    }

pub place-IsPlaced :
    (vs : List VowelInfo) (has_coda modern : Bool)
    → 0 < length vs
    → (i : ℕ) × (place vs has_coda modern ≡ some i) × IsPlaced vs i
place-IsPlaced vs has_coda modern h = elim (Option-cases (find_last is_horned 0 vs)) [
  | inr (i, e) ↦ (i, ground (arith, place_horned vs has_coda modern i), horned-IsPlaced vs i e)
  | inl n ↦ elim (Option-cases (find_first is_circumflexed_or_breved 0 vs)) [
    | inr (i, e) ↦
        (i, ground (arith, place_modified vs has_coda modern i), modified-IsPlaced vs i n e)
    | inl m ↦
        (let (i, e, b) = tail_position vs has_coda modern h n m in
          (
            i,
            e,
            record {
              bound = b;
              horn_first = inr (find_last-none is_horned 0 vs n);
              modified_next = λ k. inr (find_first-none is_circumflexed_or_breved 0 vs m);
            },
          ))
  ]
]

place-empty :
    (vs : List VowelInfo) (has_coda modern : Bool) → length vs ≡ 0 → place vs has_coda modern ≡ none
unfolding place
place-empty vs has_coda modern h = ground arith

-- A nucleus without vowels has no tone position. Any other has one, among its first 16 vowels:
-- the last horned vowel; without a horn the first vowel with a circumflex or a breve; else some
-- vowel of the nucleus.
pub tone_position-IsPlaced :
    (vowels coda : Wstring) (modern : Bool)
    → ((length (collect 16 vowels) ≡ 0) × (tone_position vowels coda modern ≡ none))
      ⊎ ((i : ℕ) × (tone_position vowels coda modern ≡ some i) × IsPlaced (collect 16 vowels) i)
unfolding tone_position
tone_position-IsPlaced vowels coda modern = elim (Bool-cases (length (collect 16 vowels) == 0)) [
  | inl z ↦
      (let e : length (collect 16 vowels) ≡ 0 = ground arith in
        inl (e, place-empty (collect 16 vowels) (not (empty coda)) modern e))
  | inr p ↦ inr (place-IsPlaced (collect 16 vowels) (not (empty coda)) modern (ground arith))
]
