-- ===== src/Engine/Escaped.antt =====
-- What the escape of a tone in `ProcessTone` of TypingEngine.cpp leaves in the buffer.
use nexus_key.Base.{
  ℕ, zero, suc, ◌<◌, ◌≡◌, ◌∙◌, refl, ap, Bool, false, none, Option, some, List, [], ◌∷◌, ◌++◌,
  length, set, map, leb, take, drop, subst, sym, arith,
}
use nexus_key.State.{CharState, Modifier, no_tone, at}
use nexus_key.Letters.{Ctype}
use nexus_key.Engine.Core.{
  Engine, erase_at, erase_consumed_raw, shift_state, process_char, process_key, escape_tone,
}
use nexus_key.Engine.Lengths.{length-set, length-map}
use nexus_key.Engine.Tone.{escape_tone_at, set_state}

pub at-set : (ss : List CharState) (i : ℕ) (s : CharState) → i < length ss → at (set ss i s) i ≡ s
unfolding at
at-set [] i s h = absurd (omega arith)
at-set (x ∷ ss) zero s h = refl
at-set (x ∷ ss) (suc i) s h = at-set ss i s (omega arith)

-- The escape from the engine on whose raw key is erased.
abbrev pub after_erasure : Ctype → ℕ → ℕ → Engine → Engine
after_erasure ct key i f =
    record (process_key ct key (set_state f i (record (at f.states i) { tone_raw_idx = none }))) {
      escape = escape_tone;
    }

-- The engine whose raw key is erased.
abbrev pub erased : ℕ → ℕ → Engine → Engine
erased r i e = record e {
  raw_input = erase_at r e.raw_input;
  states = map (shift_state r) (set e.states i (record (at e.states i) { tone = no_tone }));
}

pub erase_consumed_raw-in_range :
    (r : ℕ) (e : Engine)
    → r < length e.raw_input
    → erase_consumed_raw r e
      ≡ record e { raw_input = erase_at r e.raw_input; states = map (shift_state r) e.states }
unfolding erase_consumed_raw
erase_consumed_raw-in_range r e l =
    let f : leb (length e.raw_input) r ≡ false = ground (arith, l) in rw f refl

-- The key of a tone is erased, if it is known.
abbrev pub erase_key : Option ℕ → Engine → Engine
erase_key k e = elim k [ none ↦ e | some r ↦ erase_consumed_raw r e ]

pub escape_tone_at-erased :
    (ct : Ctype) (key i r : ℕ) (e : Engine)
    → (at e.states i).tone_raw_idx ≡ some r
    → r < length e.raw_input
    → escape_tone_at ct key i e ≡ after_erasure ct key i (erased r i e)
unfolding escape_tone_at
escape_tone_at-erased ct key i r e h l =
    let cleared = set_state e i (record (at e.states i) { tone = no_tone }) in
    ap (λ o. after_erasure ct key i (erase_key o cleared)) h
    ∙ ap (after_erasure ct key i) (erase_consumed_raw-in_range r cleared l)

-- The letter of a state and its modifier.
abbrev pub letter_of : CharState → ℕ × Modifier
letter_of s = (s.base, s.mod_)

-- The letter of a state and its case.
abbrev pub key_letter : CharState → ℕ × Bool
key_letter s = (s.base, s.is_upper)

-- What an escape leaves at the target, of the letters before the key, and of the key.
pub record IsEscaped (ct : Ctype) (key i : ℕ) (ss : List CharState) (f : Engine) : Type 0 where
  pub target_tone : (at f.states i).tone ≡ no_tone
  pub target_key : (at f.states i).tone_raw_idx ≡ none
  pub letters : map letter_of (take (length ss) f.states) ≡ map letter_of ss
  pub literal : map key_letter (drop (length ss) f.states) ≡ (ct.towlower key, ct.iswupper key) ∷ []
  pub flag : f.escape ≡ escape_tone

pub at-append : (ss us : List CharState) (i : ℕ) → i < length ss → at (ss ++ us) i ≡ at ss i
unfolding at
at-append [] us i h = absurd (omega (arith, h))
at-append (s ∷ ss) us zero h = refl
at-append (s ∷ ss) us (suc i) h = at-append ss us i (omega (arith, h))

pub at-map :
    (g : CharState → CharState) (ss : List CharState) (i : ℕ)
    → i < length ss
    → at (map g ss) i ≡ g (at ss i)
unfolding at
at-map g [] i h = absurd (omega (arith, h))
at-map g (s ∷ ss) zero h = refl
at-map g (s ∷ ss) (suc i) h = at-map g ss i (omega (arith, h))

pub take-append {ℓ} : {A : Type ℓ} (xs ys : List A) → take (length xs) (xs ++ ys) ≡ xs
take-append [] ys = refl
take-append (x ∷ xs) ys = ap (λ l. x ∷ l) (take-append xs ys)

pub drop-append {ℓ} : {A : Type ℓ} (xs ys : List A) → drop (length xs) (xs ++ ys) ≡ ys
drop-append [] ys = refl
drop-append (x ∷ xs) ys = drop-append xs ys

pub letters-set :
    (ss : List CharState) (i : ℕ) (s : CharState)
    → letter_of s ≡ letter_of (at ss i)
    → map letter_of (set ss i s) ≡ map letter_of ss
unfolding at
letters-set [] i s h = refl
letters-set (x ∷ ss) zero s h = ap (λ l. l ∷ map letter_of ss) h
letters-set (x ∷ ss) (suc i) s h = ap (λ l. letter_of x ∷ l) (letters-set ss i s h)

pub letters-shift_state :
    (r : ℕ) (ss : List CharState) → map letter_of (map (shift_state r) ss) ≡ map letter_of ss
unfolding shift_state
letters-shift_state r [] = refl
letters-shift_state r (s ∷ ss) = ap (λ l. letter_of s ∷ l) (letters-shift_state r ss)

pub shift_state-tone : (r : ℕ) (s : CharState) → (shift_state r s).tone ≡ s.tone
unfolding shift_state
shift_state-tone r s = refl

-- The states before the letter of the key.
abbrev pub untoned : ℕ → ℕ → List CharState → List CharState
untoned r i ss =
    let moved = map (shift_state r) (set ss i (record (at ss i) { tone = no_tone })) in
    set moved i (record (at moved i) { tone_raw_idx = none })

pub length-untoned : (r i : ℕ) (ss : List CharState) → length (untoned r i ss) ≡ length ss
length-untoned r i ss =
    let cleared = set ss i (record (at ss i) { tone = no_tone }) in
    let moved = map (shift_state r) cleared in
    length-set moved i (record (at moved i) { tone_raw_idx = none })
    ∙ length-map (shift_state r) cleared
    ∙ length-set ss i (record (at ss i) { tone = no_tone })

pub letters-untoned :
    (r i : ℕ) (ss : List CharState) → map letter_of (untoned r i ss) ≡ map letter_of ss
letters-untoned r i ss =
    let cleared = set ss i (record (at ss i) { tone = no_tone }) in
    let moved = map (shift_state r) cleared in
    letters-set moved i (record (at moved i) { tone_raw_idx = none }) refl
    ∙ letters-shift_state r cleared
    ∙ letters-set ss i (record (at ss i) { tone = no_tone }) refl

pub at-untoned :
    (r i : ℕ) (ss : List CharState)
    → i < length ss
    → ((at (untoned r i ss) i).tone ≡ no_tone) × ((at (untoned r i ss) i).tone_raw_idx ≡ none)
at-untoned r i ss b =
    let s : CharState = record (at ss i) { tone = no_tone } in
    let cleared = set ss i s in
    let moved = map (shift_state r) cleared in
    let c : i < length cleared = omega (arith, b, length-set ss i s) in
    let m : i < length moved = omega (arith, c, length-map (shift_state r) cleared) in
    let here = at-set moved i (record (at moved i) { tone_raw_idx = none }) m in
    let tone : (at moved i).tone ≡ no_tone =
      ap (λ u. u.tone) (at-map (shift_state r) cleared i c)
      ∙ shift_state-tone r (at cleared i)
      ∙ ap (λ u. u.tone) (at-set ss i s b) in
    (ap (λ u. u.tone) here ∙ tone, ap (λ u. u.tone_raw_idx) here)

pub after_erasure-IsEscaped :
    (ct : Ctype) (key i r : ℕ) (e : Engine)
    → i < length e.states
    → IsEscaped ct key i e.states (after_erasure ct key i (erased r i e))
unfolding process_key process_char
after_erasure-IsEscaped ct key i r e b =
    let us = untoned r i e.states in
    let n = length-untoned r i e.states in
    let u = at-untoned r i e.states b in
    let j : i < length us = omega (arith, b, n) in
    record {
      target_tone = ap (λ s. s.tone) (at-append us _ i j) ∙ u.0;
      target_key = ap (λ s. s.tone_raw_idx) (at-append us _ i j) ∙ u.1;
      letters =
          ap (λ k. map letter_of (take k (after_erasure ct key i (erased r i e)).states)) (sym n)
          ∙ ap (map letter_of) (take-append us _)
          ∙ letters-untoned r i e.states;
      literal =
          ap (λ k. map key_letter (drop k (after_erasure ct key i (erased r i e)).states)) (sym n)
          ∙ ap (map key_letter) (drop-append us _);
      flag = refl;
    }

pub escape_tone_at-IsEscaped :
    (ct : Ctype) (key i r : ℕ) (e : Engine)
    → i < length e.states
    → (at e.states i).tone_raw_idx ≡ some r
    → r < length e.raw_input
    → IsEscaped ct key i e.states (escape_tone_at ct key i e)
escape_tone_at-IsEscaped ct key i r e b h l =
    subst (IsEscaped ct key i e.states) (sym (escape_tone_at-erased ct key i r e h l))
      (after_erasure-IsEscaped ct key i r e b)
