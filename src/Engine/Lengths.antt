-- ===== src/Engine/Lengths.antt =====
-- What the operations on the buffer do to its length.
use nexus_key.Base.{
  ℕ, zero, suc, ◌-◌, ◌≡◌, ◌∙◌, sym, refl, ap, Bool, List, [], ◌∷◌, ◌++◌, ◌&&◌, length, map, set,
  inl, inr, Option-cases, arith,
}
use nexus_key.Scan.{find_last}
use nexus_key.State.{CharState, Modifier, no_mod, no_tone, is_vowel, is_horn, has_tone, at}
use nexus_key.Letters.{Ctype}
use nexus_key.Helpers.{set_mod, undo_horn_u}
use nexus_key.Engine.Relocate.{relocate_tone_to_horn_vowel, relocate_tone_to_target, apply_auto_uo}
use nexus_key.Engine.Letterwise.{letters, relocate_tone_to_target-keeps, apply_auto_uo-letters}

pub length-map {ℓ κ} :
    {A : Type ℓ} {B : Type κ} (f : A → B) (xs : List A) → length (map f xs) ≡ length xs
length-map f [] = refl
length-map f (x ∷ xs) = ap suc (length-map f xs)

pub length-set {ℓ} : {A : Type ℓ} (xs : List A) (i : ℕ) (x : A) → length (set xs i x) ≡ length xs
length-set [] i x = refl
length-set (y ∷ xs) zero x = refl
length-set (y ∷ xs) (suc i) x = ap suc (length-set xs i x)

pub length-snoc {ℓ} : {A : Type ℓ} (xs : List A) (x : A) → length (xs ++ x ∷ []) ≡ suc (length xs)
length-snoc [] x = refl
length-snoc (y ∷ xs) x = ap suc (length-snoc xs x)

pub length-letters : (ss : List CharState) → length (letters ss) ≡ length ss
length-letters ss = length-map _ ss

pub length-relocate :
    (ct : Ctype) (modern : Bool) (ss : List CharState)
    → length (relocate_tone_to_target ct modern ss) ≡ length ss
length-relocate ct modern ss =
    sym (length-letters (relocate_tone_to_target ct modern ss))
    ∙ ap length (relocate_tone_to_target-keeps ct modern ss).0
    ∙ length-letters ss

pub length-auto_uo :
    (ct : Ctype) (modern : Bool) (ss : List CharState)
    → length (apply_auto_uo ct modern ss) ≡ length ss
length-auto_uo ct modern ss =
    sym (length-letters (apply_auto_uo ct modern ss))
    ∙ ap length (apply_auto_uo-letters ct modern ss)
    ∙ length-letters ss

pub length-relocate_horn :
    (ss : List CharState) → length (relocate_tone_to_horn_vowel ss) ≡ length ss
unfolding relocate_tone_to_horn_vowel
length-relocate_horn ss = elim (Option-cases (find_last (λ s. is_vowel s && is_horn s) 0 ss)) [
  | inl n ↦ ground arith
  | inr (h, e) ↦ elim (Option-cases (find_last (λ s. is_vowel s && has_tone s) 0 ss)) [
    | inl n ↦ ground arith
    | inr (t, g) ↦
        (let a = length-set ss h (record (at ss h) { tone = (at ss t).tone }) in
          let b =
            length-set (set ss h (record (at ss h) { tone = (at ss t).tone })) t
              (record (at ss t) { tone = no_tone }) in
          ground arith)
  ]
]

pub length-set_mod :
    (ss : List CharState) (i : ℕ) (m : Modifier) → length (set_mod ss i m) ≡ length ss
length-set_mod ss i m = length-set ss i _

pub length-undo_horn_u : (ss : List CharState) (o : ℕ) → length (undo_horn_u ss o) ≡ length ss
unfolding undo_horn_u
length-undo_horn_u ss o = ground (arith, length-set_mod ss (o - 1) no_mod)
