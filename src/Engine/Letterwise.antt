-- ===== src/Engine/Letterwise.antt =====
-- The placement of tones and `ApplyAutoUO` keep the letters of the buffer.
use nexus_key.Base.{
  ℕ, zero, suc, ◌+◌, ◌≡◌, ◌∙◌, sym, refl, Bool, ltb, Option, none, map, List, [], ◌∷◌, length, set,
  inl, inr, Bool-cases, Option-cases, arith,
}
use nexus_key.State.{CharState, Modifier, horn, Tone, no_tone, at}
use nexus_key.Letters.{Ctype}
use nexus_key.Helpers.{set_mod, find_toned_vowel_index}
use nexus_key.Engine.ToneTarget.{find_tone_target}
use nexus_key.Engine.Relocate.{
  move_tone, relocate_tone_to_target, complete_u, complete_o, auto_uo_at, auto_uo_from,
  apply_auto_uo,
}

-- A letter without its marks, with the key it comes from.
pub record Letter : Type 0 where
  pub base : ℕ
  pub is_upper : Bool
  pub synthetic : Bool
  pub raw_idx : ℕ

abbrev pub letter_of : CharState → Letter
letter_of s = record {
  base = s.base;
  is_upper = s.is_upper;
  synthetic = s.synthetic;
  raw_idx = s.raw_idx;
}

-- The letters of a buffer, and their modifiers.
abbrev pub letters : List CharState → List Letter
letters ss = map letter_of ss

abbrev pub modifiers : List CharState → List Modifier
modifiers ss = map (λ s. s.mod_) ss

-- A write of a state with the same view changes no view.
map-set {ℓ} :
    {A : Type ℓ} (f : CharState → A) (ss : List CharState) (i : ℕ) (s : CharState)
    → f s ≡ f (at ss i)
    → map f (set ss i s) ≡ map f ss
unfolding at
map-set f [] i s h = refl
map-set f (x ∷ ss) zero s h = rw h refl
map-set f (x ∷ ss) (suc i) s h = rw (map-set f ss i s h) refl

at-set-view {ℓ} :
    {A : Type ℓ} (f : CharState → A) (ss : List CharState) (i j : ℕ) (s : CharState)
    → f s ≡ f (at ss i)
    → f (at (set ss i s) j) ≡ f (at ss j)
unfolding at
at-set-view f [] i j s h = refl
at-set-view f (x ∷ ss) zero zero s h = h
at-set-view f (x ∷ ss) zero (suc j) s h = refl
at-set-view f (x ∷ ss) (suc i) zero s h = refl
at-set-view f (x ∷ ss) (suc i) (suc j) s h = at-set-view f ss i j s h

set_mod-letters :
    (ss : List CharState) (i : ℕ) (m : Modifier) → letters (set_mod ss i m) ≡ letters ss
set_mod-letters ss i m = map-set letter_of ss i _ refl

move_tone-view {ℓ} :
    {A : Type ℓ} (f : CharState → A) (ss : List CharState) (from to : ℕ)
    → ((s : CharState) (t : Tone) (r : Option ℕ)
        → f (record s { tone = t; tone_raw_idx = r }) ≡ f s)
    → map f (move_tone ss from to) ≡ map f ss
unfolding move_tone
move_tone-view f ss from to h =
    let first = map-set f ss to _ (h (at ss to) (at ss from).tone (at ss from).tone_raw_idx) in
    map-set f _ from _ (
      h (at ss from) no_tone none
      ∙ sym (at-set-view f ss to from _ (h (at ss to) (at ss from).tone (at ss from).tone_raw_idx)))
    ∙ first

relocate-view {ℓ} :
    {A : Type ℓ} (f : CharState → A) (ct : Ctype) (modern : Bool) (ss : List CharState)
    → ((s : CharState) (t : Tone) (r : Option ℕ)
        → f (record s { tone = t; tone_raw_idx = r }) ≡ f s)
    → map f (relocate_tone_to_target ct modern ss) ≡ map f ss
unfolding relocate_tone_to_target
relocate-view f ct modern ss h = elim (Option-cases (find_toned_vowel_index ss)) [
  | inl n ↦ ground arith
  | inr (from, g) ↦ elim (Option-cases (find_tone_target ct modern ss)) [
    | inl n ↦ ground arith
    | inr (to, t) ↦ ground (arith, move_tone-view f ss from to h)
  ]
]

-- `RelocateToneToTarget` changes no letter and no modifier of the buffer.
pub relocate_tone_to_target-keeps :
    (ct : Ctype) (modern : Bool) (ss : List CharState)
    → (letters (relocate_tone_to_target ct modern ss) ≡ letters ss)
      × (modifiers (relocate_tone_to_target ct modern ss) ≡ modifiers ss)
relocate_tone_to_target-keeps ct modern ss = (
  relocate-view letter_of ct modern ss (λ s t r. refl),
  relocate-view (λ s. s.mod_) ct modern ss (λ s t r. refl),
)

complete_u-letters : (ss : List CharState) (i : ℕ) → letters (complete_u ss i) ≡ letters ss
unfolding complete_u
complete_u-letters ss i = ground (arith, set_mod-letters ss i horn)

complete_o-letters :
    (ct : Ctype) (modern : Bool) (ss : List CharState) (i : ℕ)
    → letters (complete_o ct modern ss i) ≡ letters ss
unfolding complete_o
complete_o-letters ct modern ss i =
    let marked = set_mod-letters ss (i + 1) horn in
    let placed = relocate-view letter_of ct modern (set_mod ss (i + 1) horn) (λ s t r. refl) in
    ground (arith, placed ∙ marked)

auto_uo_at-letters :
    (ct : Ctype) (modern : Bool) (ss : List CharState) (i : ℕ)
    → letters (auto_uo_at ct modern ss i) ≡ letters ss
unfolding auto_uo_at
auto_uo_at-letters ct modern ss i =
    let both = complete_o-letters ct modern (complete_u ss i) i ∙ complete_u-letters ss i in
    ground (arith, both)

auto_uo_from-letters :
    (ct : Ctype) (modern : Bool) (rounds i : ℕ) (ss : List CharState)
    → letters (auto_uo_from ct modern rounds i ss) ≡ letters ss
unfolding auto_uo_from
auto_uo_from-letters ct modern zero i ss = refl
auto_uo_from-letters ct modern (suc rounds) i ss =
    auto_uo_from-letters ct modern rounds (suc i) (auto_uo_at ct modern ss i)
    ∙ auto_uo_at-letters ct modern ss i

-- `ApplyAutoUO` changes no letter of the buffer: it completes horns and moves tones only.
pub apply_auto_uo-letters :
    (ct : Ctype) (modern : Bool) (ss : List CharState)
    → letters (apply_auto_uo ct modern ss) ≡ letters ss
unfolding apply_auto_uo
apply_auto_uo-letters ct modern ss = elim (Bool-cases (ltb (length ss) 3)) [
  | inl l ↦ rw l refl
  | inr l ↦ rw l (auto_uo_from-letters ct modern _ _ ss)
]
