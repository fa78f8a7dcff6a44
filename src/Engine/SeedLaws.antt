-- ===== src/Engine/SeedLaws.antt =====
-- `SeedFromText` reads back what the engine composes.
use nexus_key.Base.{
  ℕ, ◌≡◌, ◌∙◌, sym, refl, ap, true, false, ◌==◌, if◌then◌else◌, none, some, List, [], ◌∷◌, ◌++◌,
  all, &&-left, &&-right, map, length, Wstring, arith,
}
use nexus_key.State.{
  CharState, Modifier, no_mod, circumflex, breve, horn, stroke, Tone, no_tone, acute, grave, hook,
  tilde, dot, blank,
}
use nexus_key.Letters.{
  Ctype, FollowsUnicode, compose, is_letter, parts, Decomposed, decompose_viet_char,
  decompose-compose_unicode, compose-nonzero, compose-view, decomposed_mod, tone_index,
}
use nexus_key.Engine.Core.{Engine, reset, compose_all, update_spell_state, peek}
use nexus_key.Engine.Edit.{seed_mod, seed_tone, seed_state, seed_chars, seed_from_text}

seed_mod-decomposed_mod : (m : Modifier) → seed_mod (decomposed_mod m) ≡ m
unfolding seed_mod
seed_mod-decomposed_mod no_mod = refl
seed_mod-decomposed_mod circumflex = refl
seed_mod-decomposed_mod breve = refl
seed_mod-decomposed_mod horn = refl
seed_mod-decomposed_mod stroke = refl

seed_tone-tone_index : (t : Tone) → seed_tone (tone_index t) ≡ t
unfolding seed_tone
seed_tone-tone_index no_tone = refl
seed_tone-tone_index acute = refl
seed_tone-tone_index grave = refl
seed_tone-tone_index hook = refl
seed_tone-tone_index tilde = refl
seed_tone-tone_index dot = refl

-- What `Compose` reads of a state.
abbrev pub letter : CharState → CharState
letter s = record blank { base = s.base; mod_ = s.mod_; tone = s.tone; is_upper = s.is_upper }

compose-letter : (ct : Ctype) (s : CharState) → compose ct (letter s) ≡ compose ct s
compose-letter ct s = sym (compose-view ct s false 0 none)

letter-seed_state : (s : CharState) (r : ℕ) → letter (seed_state (parts s) r) ≡ letter s
unfolding seed_state
letter-seed_state s r = rw (seed_mod-decomposed_mod s.mod_, seed_tone-tone_index s.tone) refl

map-letter-append :
    (xs ys : List CharState) → map letter (xs ++ ys) ≡ map letter xs ++ map letter ys
map-letter-append [] ys = refl
map-letter-append (x ∷ xs) ys = rw (map-letter-append xs ys) refl

compose_all-letter :
    (ct : Ctype) (ss : List CharState) → compose_all ct (map letter ss) ≡ compose_all ct ss
unfolding compose_all
compose_all-letter ct [] = refl
compose_all-letter ct (s ∷ ss) = rw (compose-letter ct s, compose_all-letter ct ss) refl

compose_all-same :
    (ct : Ctype) (ss rs : List CharState)
    → map letter ss ≡ map letter rs
    → compose_all ct ss ≡ compose_all ct rs
compose_all-same ct ss rs h =
    sym (compose_all-letter ct ss) ∙ ap (compose_all ct) h ∙ compose_all-letter ct rs

++_nil : (xs : List CharState) → xs ++ [] ≡ xs
++_nil [] = refl
++_nil (x ∷ xs) = ap (λ l. x ∷ l) (++_nil xs)

++_assoc : (xs ys zs : List CharState) → (xs ++ ys) ++ zs ≡ xs ++ (ys ++ zs)
++_assoc [] ys zs = refl
++_assoc (x ∷ xs) ys zs = ap (λ l. x ∷ l) (++_assoc xs ys zs)

compose_all-cons :
    (ct : Ctype) (s : CharState) (ss : List CharState)
    → (compose ct s == 0) ≡ false
    → compose_all ct (s ∷ ss) ≡ compose ct s ∷ compose_all ct ss
unfolding compose_all
compose_all-cons ct s ss z = ground arith

-- The engine after one round of the loop.
after : Ctype → Decomposed → Engine → Engine
after ct d e = record e {
  states = e.states ++ seed_state d (length e.raw_input) ∷ [];
  raw_input = e.raw_input ++ (if d.is_upper then ct.towupper d.base else d.base) ∷ [];
}

seed_chars-cons :
    (ct : Ctype) (ch : ℕ) (text : Wstring) (e : Engine) (d : Decomposed)
    → decompose_viet_char ct ch ≡ some d
    → seed_chars ct (ch ∷ text) e ≡ seed_chars ct text (after ct d e)
unfolding seed_chars after
seed_chars-cons ct ch text e d h = ground arith

-- The loop reads every letter.
Reads : Ctype → List CharState → Engine → Type 0
Reads ct ss e =
    (f : Engine) × (seed_chars ct (compose_all ct ss) e ≡ some f)
    × (map letter f.states ≡ map letter e.states ++ map letter ss)

seed_chars-Reads :
    (ct : Ctype) (ss : List CharState) (e : Engine)
    → FollowsUnicode ct
    → all is_letter ss ≡ true
    → Reads ct ss e
unfolding Reads seed_chars compose_all after
seed_chars-Reads ct [] e u h = (e, refl, sym (++_nil (map letter e.states)))
seed_chars-Reads ct (s ∷ ss) e u h =
    let l : is_letter s ≡ true = &&-left (is_letter s) (all is_letter ss) h in
    let next : Engine = after ct (parts s) e in
    let states : map letter next.states ++ map letter ss
        ≡ map letter e.states ++ map letter (s ∷ ss) =
      rw
        (
          map-letter-append e.states (seed_state (parts s) (length e.raw_input) ∷ []),
          letter-seed_state s (length e.raw_input),
        )
        (++_assoc (map letter e.states) (letter s ∷ []) (map letter ss)) in
    let rest = seed_chars-Reads ct ss next u (&&-right (is_letter s) (all is_letter ss) h) in
    (
      rest.0,
      ap (λ t. seed_chars ct t e) (compose_all-cons ct s ss (compose-nonzero ct s u l))
          ∙ seed_chars-cons ct _ (compose_all ct ss) e (parts s)
              (decompose-compose_unicode ct s u l)
          ∙ rest.1,
      rest.2 ∙ states,
    )

seed_from_text-some :
    (ct : Ctype) (text : Wstring) (e f : Engine)
    → seed_chars ct text (reset e) ≡ some f
    → ((seed_from_text ct text e).0 ≡ true) × ((seed_from_text ct text e).1.states ≡ f.states)
unfolding seed_from_text update_spell_state
seed_from_text-some ct text e f h = ground arith

-- Where the C library follows Unicode on ASCII, on small letters and on the capitals of ĩ and ũ:
-- `SeedFromText` accepts the text that the engine composes of letters, whatever was in the buffer, and
-- what it then holds composes to the same text, of states with the same bases, modifiers, tones and
-- cases.
pub seed_from_text-compose_all :
    (ct : Ctype) (ss : List CharState) (e : Engine)
    → FollowsUnicode ct
    → all is_letter ss ≡ true
    → ((seed_from_text ct (compose_all ct ss) e).0 ≡ true)
      × (map letter (seed_from_text ct (compose_all ct ss) e).1.states ≡ map letter ss)
      × (peek ct (seed_from_text ct (compose_all ct ss) e).1 ≡ compose_all ct ss)
unfolding peek Reads reset
seed_from_text-compose_all ct ss e u h =
    let read : Reads ct ss (reset e) = seed_chars-Reads ct ss (reset e) u h in
    let seeded = seed_from_text-some ct (compose_all ct ss) e read.0 read.1 in
    let same = ap (map letter) seeded.1 ∙ read.2 in (seeded.0, same, compose_all-same ct _ ss same)
