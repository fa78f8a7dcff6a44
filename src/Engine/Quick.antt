-- ===== src/Engine/Quick.antt =====
-- The quick consonants: `HandleQuickStartConsonant` and `HandleQuickEndConsonant`.
use nexus_key.Base.{
  ℕ, ◌-◌, Bool, true, false, not, ◌&&◌, ◌||◌, ◌==◌, leb, if◌then◌else◌, Option, none, some, List,
  [], ◌∷◌, ◌++◌, length,
}
use nexus_key.State.{
  CharState, no_mod, horn, mod_eq, blank, is_vowel, is_d, at, base_at, is_vowel_at,
}
use nexus_key.Letters.{Ctype, is_triphthong, is_vowel_char}
use nexus_key.Helpers.{set_mod}
use nexus_key.Engine.Core.{Engine, last_raw, process_key, update_spell_state}
use nexus_key.Engine.Modify.{finalize_regular_char}

-- f→ph, j→gi, w→qu.
unfoldable pub quick_start_pair : ℕ → Option (ℕ × ℕ)
quick_start_pair lower =
    if lower == b'f'
    then some (b'p', b'h')
    else if lower == b'j'
    then some (b'g', b'i')
    else if lower == b'w'
    then some (b'q', b'u')
    else none

-- 0a: the pair stands for the key at the start of a word.
unfoldable pub expand_start : Ctype → ℕ → Bool → ℕ × ℕ → Engine → Engine
expand_start ct key upper (first, second) e =
    let f = process_key ct (if upper then ct.towupper first else first) e in
    update_spell_state ct (record (process_key ct second f) { quick_start_key = key })

-- 0a-cont: the pair goes back to its key before a key that is no vowel.
unfoldable pub settle_start : Ctype → ℕ → Engine → Engine
settle_start ct key e =
    let saved = e.quick_start_key in
    let f : Engine = record e { quick_start_key = 0 } in
    let undone = process_key ct saved (record f { states = []; raw_input = saved ∷ [] }) in
    if saved == 0
    then e
    else if is_vowel_char key
    then f
    else record undone { raw_input = undone.raw_input ++ key ∷ [] }

-- The second letter of cc→ch, gg→gi and the like.
unfoldable pub quick_replacement : ℕ → ℕ → Option ℕ
quick_replacement last lower =
    if last == b'c' && lower == b'c'
    then some b'h'
    else if last == b'g' && lower == b'g'
    then some b'i'
    else if last == b'n' && lower == b'n'
    then some b'g'
    else if last == b'k' && lower == b'k'
    then some b'h'
    else if last == b'q' && lower == b'q'
    then some b'u'
    else if last == b'p' && lower == b'p'
    then some b'h'
    else if last == b't' && lower == b't'
    then some b'h'
    else none

-- 0b: the consonant is doubled.
unfoldable pub expand_consonant : Ctype → ℕ → Bool → ℕ → Engine → Engine
expand_consonant ct lower upper replacement e =
    let n = length e.states in
    let marked : Engine = record e {
      qc = record (e.qc) {
        result_index = some n;
        last_key = lower;
        only_qc = n == 1 || e.qc.only_qc;
      };
    } in
    finalize_regular_char ct
      (process_key ct (if upper then ct.towupper replacement else replacement) marked)

-- uu→ươ, unless the last three vowels are a triphthong.
unfoldable pub ends_in_triphthong : List CharState → Bool
ends_in_triphthong states =
    let n = length states in
    leb 3 n
    && is_vowel_at states (n - 3)
    && is_vowel_at states (n - 2)
    && is_triphthong (base_at states (n - 3)) (base_at states (n - 2)) (base_at states (n - 1))

unfoldable pub expand_uu : Ctype → ℕ → Bool → Engine → Engine
expand_uu ct lower upper e =
    let n = length e.states in
    let s : CharState = record blank {
      base = b'o';
      mod_ = horn;
      is_upper = upper;
      raw_idx = last_raw e;
    } in
    update_spell_state ct (record e {
      states = set_mod e.states (n - 1) horn ++ s ∷ [];
      qc = record (e.qc) {
        result_index = some n;
        last_key = lower;
        only_qc = n == 1 || e.qc.only_qc;
      };
    })

-- The escape and the suppression of a repeated key: whether the expansion is off, and the engine.
unfoldable pub settle_quick : ℕ → Engine → Bool × Engine
settle_quick lower e =
    let q = e.qc in
    let repeats = not (q.last_key == 0) && lower == q.last_key in
    (
      q.escaped || repeats,
      record e {
        qc = record q { escaped = false; last_key = if lower == q.last_key then q.last_key else 0 };
      },
    )

-- The expansions of 0b: whether the key is consumed.
unfoldable pub expand_quick : Ctype → ℕ → Bool → Engine → Bool × Engine
expand_quick ct lower upper e =
    let last = at e.states (length e.states - 1) in
    if not (is_vowel last) && not (is_d last)
    then (elim (quick_replacement last.base lower) [
      | none ↦ (false, e)
      | some r ↦ (true, expand_consonant ct lower upper r e)
    ])
    else if is_vowel last
        && last.base == b'u'
        && mod_eq last.mod_ no_mod
        && lower == b'u'
        && not (ends_in_triphthong e.states)
    then (true, expand_uu ct lower upper e)
    else (false, e)

-- 0a-cont and 0b.
unfoldable pub continue_quick : Ctype → ℕ → ℕ → Bool → Engine → Bool × Engine
continue_quick ct key lower upper e =
    let (off, f) = settle_quick lower (settle_start ct key e) in
    if f.config.quick_consonant && not (length f.states == 0) && not off
    then expand_quick ct lower upper f
    else (false, f)

-- Whether the key is consumed (`Result::Veto`).
unfoldable pub handle_quick_start_consonant : Ctype → ℕ → ℕ → Bool → Engine → Bool × Engine
handle_quick_start_consonant ct key lower upper e =
    if e.config.quick_start_consonant && length e.states == 0
    then (elim (quick_start_pair lower) [
      | some p ↦ (true, expand_start ct key upper p e)
      | none ↦ continue_quick ct key lower upper e
    ])
    else continue_quick ct key lower upper e

-- g→ng, h→nh, k→ch.
unfoldable pub quick_end_pair : ℕ → Option (ℕ × ℕ)
quick_end_pair lower =
    if lower == b'g'
    then some (b'n', b'g')
    else if lower == b'h'
    then some (b'n', b'h')
    else if lower == b'k'
    then some (b'c', b'h')
    else none

unfoldable pub handle_quick_end_consonant : Ctype → ℕ → Engine → Bool × Engine
handle_quick_end_consonant ct lower e = elim (quick_end_pair lower) [
  | none ↦ (false, e)
  | some (first, second) ↦
      (true, update_spell_state ct (process_key ct second (process_key ct first e)))
]
