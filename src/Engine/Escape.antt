-- ===== src/Engine/Escape.antt =====
-- A tone key pressed twice: `ProcessTone` applies the tone, and then escapes it.
use nexus_key.Base.{
  ℕ, suc, ◌-◌, ◌<◌, ◌≡◌, ◌≢◌, ◌∙◌, refl, ap, Bool, true, false, ◌==◌, if◌then◌else◌, none, some,
  List, [], ◌∷◌, ◌++◌, length, length-append, set, map, subst, sym, arith,
}
use nexus_key.State.{CharState, Tone, tone_value, tone_eq, at}
use nexus_key.Letters.{Ctype}
use nexus_key.Engine.Core.{Engine, erase_at, erase_consumed_raw, process_char, process_key}
use nexus_key.Engine.TargetLaws.{find_tone_target-IsTarget}
use nexus_key.Engine.Lengths.{length-set}
use nexus_key.Engine.Tone.{apply_tone_at, escape_tone_at, process_tone, target_of}
use nexus_key.Engine.Escaped.{at-set, letter_of, letters-set, escape_tone_at-IsEscaped, IsEscaped}

erase_at-last :
    (cs : List ℕ) (c : ℕ) (ds : List ℕ) → erase_at (length cs) ((cs ++ c ∷ []) ++ ds) ≡ cs ++ ds
unfolding erase_at
erase_at-last [] c ds = refl
erase_at-last (x ∷ cs) c ds = ap (λ l. x ∷ l) (erase_at-last cs c ds)

-- A key press, as `PushChar` records it before a handler runs.
abbrev pub press : ℕ → Engine → Engine
press key e = record e { raw_input = e.raw_input ++ key ∷ [] }

-- The escape, on a state whose tone key is known.
escape_tone_at-raw :
    (ct : Ctype) (key i r : ℕ) (e : Engine)
    → (at e.states i).tone_raw_idx ≡ some r
    → r < length e.raw_input
    → (escape_tone_at ct key i e).raw_input ≡ erase_at r e.raw_input
unfolding escape_tone_at erase_consumed_raw process_key process_char
escape_tone_at-raw ct key i r e h l = ground arith

-- The state after the first press.
applied : (e : Engine) (t : Tone) (key i : ℕ) → CharState
applied e t key i = record (at e.states i) { tone = t; tone_raw_idx = some (length e.raw_input) }

length-press : (e : Engine) (key : ℕ) → length (press key e).raw_input ≡ suc (length e.raw_input)
length-press e key = omega (arith, length-append e.raw_input (key ∷ []))

-- The index that the first press records.
mark-press :
    (e : Engine) (key : ℕ)
    → (if length (press key e).raw_input == 0
        then none
        else some (length (press key e).raw_input - 1))
      ≡ some (length e.raw_input)
mark-press e key = ground (arith, length-press e key)

apply_tone_at-press :
    (e : Engine) (t : Tone) (key i : ℕ)
    → i < length e.states
    → at (apply_tone_at t i (press key e)).states i ≡ applied e t key i
unfolding apply_tone_at applied
apply_tone_at-press e t key i h =
    ap (λ r. at (set e.states i (record (at e.states i) { tone = t; tone_raw_idx = r })) i)
      (mark-press e key)
    ∙ at-set e.states i
        (record (at e.states i) { tone = t; tone_raw_idx = some (length e.raw_input) }) h

apply_tone_at-raw : (e : Engine) (t : Tone) (i : ℕ) → (apply_tone_at t i e).raw_input ≡ e.raw_input
unfolding apply_tone_at
apply_tone_at-raw e t i = refl

process_tone-applies :
    (ct : Ctype) (t : Tone) (key i : ℕ) (e : Engine)
    → tone_value t ≢ 0
    → tone_eq (at e.states i).tone t ≡ false
    → process_tone ct t key (some i) e ≡ (true, apply_tone_at t i e)
unfolding process_tone
process_tone-applies ct t key i e n d = ground arith

process_tone-escapes :
    (ct : Ctype) (t : Tone) (key i : ℕ) (e : Engine)
    → tone_value t ≢ 0
    → (at e.states i).tone ≡ t
    → process_tone ct t key (some i) e ≡ (true, escape_tone_at ct key i e)
unfolding process_tone
process_tone-escapes ct t key i e n d = ground (arith, ap tone_value d)

apply_tone_at-length :
    (e : Engine) (t : Tone) (i : ℕ) → length (apply_tone_at t i e).states ≡ length e.states
unfolding apply_tone_at
apply_tone_at-length e t i = length-set e.states i _

apply_tone_at-letters :
    (e : Engine) (t : Tone) (i : ℕ)
    → map letter_of (apply_tone_at t i e).states ≡ map letter_of e.states
unfolding apply_tone_at
apply_tone_at-letters e t i = letters-set e.states i _ refl

-- The engine after a press of the tone key, and whether the press is consumed; `ProcessTone` looks for
-- the target.
abbrev pub press_tone : Ctype → Tone → ℕ → Engine → Bool × Engine
press_tone ct t key e = process_tone ct t key none (press key e)

-- The two presses of a tone key over a target.
pub record Presses (ct : Ctype) (t : Tone) (key i : ℕ) (e : Engine) : Type 0 where
  pub first_consumed : (press_tone ct t key e).0 ≡ true
  pub first_tone : (at (press_tone ct t key e).1.states i).tone ≡ t
  pub first_letters : map letter_of (press_tone ct t key e).1.states ≡ map letter_of e.states
  pub second_consumed : (press_tone ct t key (press_tone ct t key e).1).0 ≡ true
  pub second_escaped :
      IsEscaped ct key i
        (press_tone ct t key e).1.states
        (press_tone ct t key (press_tone ct t key e).1).1
  pub second_raw :
      (press_tone ct t key (press_tone ct t key e).1).1.raw_input ≡ e.raw_input ++ key ∷ []

process_tone-found :
    (ct : Ctype) (t : Tone) (key i : ℕ) (e : Engine)
    → target_of ct e ≡ some i
    → process_tone ct t key none e ≡ process_tone ct t key (some i) e
unfolding process_tone
process_tone-found ct t key i e h = rw h refl

-- A tone key pressed twice over a target that has another tone, or none, and that `ProcessTone` finds
-- each time: both presses are consumed, and the first applies the tone and changes no letter. The second
-- takes the tone away and its key, changes no letter, appends the letter of the key and marks the escape;
-- the raw keys then hold the key once.
pub process_tone-escape :
    (ct : Ctype) (t : Tone) (key i : ℕ) (e : Engine)
    → tone_value t ≢ 0
    → tone_eq (at e.states i).tone t ≡ false
    → target_of ct e ≡ some i
    → target_of ct (apply_tone_at t i (press key e)) ≡ some i
    → Presses ct t key i e
unfolding applied
process_tone-escape ct t key i e n d g k =
    let h = (find_tone_target-IsTarget ct e.config.modern_ortho e.states i g).0 in
    let first = apply_tone_at-press e t key i h in
    let f : Engine = apply_tone_at t i (press key e) in
    let raw = apply_tone_at-raw (press key e) t i in
    let bound : i < length f.states = omega (arith, h, apply_tone_at-length (press key e) t i) in
    let p =
      process_tone-found ct t key i (press key e) g
      ∙ process_tone-applies ct t key i (press key e) n d in
    let q =
      process_tone-found ct t key i (press key f) k
      ∙ process_tone-escapes ct t key i (press key f) n (ap (λ s. s.tone) first) in
    let r = ap (λ s. s.tone_raw_idx) first in
    let l : length e.raw_input < length (press key f).raw_input =
      omega (arith, length-press f key, ap length raw, length-press e key) in
    let esc = escape_tone_at-raw ct key i (length e.raw_input) (press key f) r l in
    let gone = escape_tone_at-IsEscaped ct key i (length e.raw_input) (press key f) bound r l in
    record {
      first_consumed = ap (λ r. r.0) p;
      first_tone = ap (λ r. (at r.1.states i).tone) p ∙ ap (λ s. s.tone) first;
      first_letters =
          ap (λ r. map letter_of r.1.states) p ∙ apply_tone_at-letters (press key e) t i;
      second_consumed = ap (λ r. (press_tone ct t key r.1).0) p ∙ ap (λ r. r.0) q;
      second_escaped =
          subst (λ r. IsEscaped ct key i r.1.states (press_tone ct t key r.1).1) (sym p)
            (subst (λ r. IsEscaped ct key i f.states r.1) (sym q) gone);
      second_raw =
          ap (λ r. (press_tone ct t key r.1).1.raw_input) p
          ∙ ap (λ r. r.1.raw_input) q
          ∙ esc
          ∙ ap (λ l. erase_at (length e.raw_input) (l ++ key ∷ [])) raw
          ∙ erase_at-last e.raw_input key (key ∷ []);
    }
