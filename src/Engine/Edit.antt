-- ===== src/Engine/Edit.antt =====
-- `Backspace`, `Commit` and `SeedFromText`.
use nexus_key.Base.{
  ℕ, ◌-◌, Bool, true, false, not, ◌&&◌, ◌||◌, ◌==◌, ltb, if◌then◌else◌, Option, none, some, List,
  [], ◌∷◌, ◌++◌, Wstring, wstring_eq, length, take,
}
use nexus_key.State.{
  CharState, Modifier, no_mod, circumflex, breve, horn, stroke, Tone, no_tone, acute, grave, hook,
  tilde, dot, at,
}
use nexus_key.Letters.{Ctype, Decomposed, decompose_viet_char}
use nexus_key.Validator.{is_valid_prefix, validate_syllable_state}
use nexus_key.English.{check_english_bias}
use nexus_key.Helpers.{
  undo_horn_u, is_spell_excluded, should_auto_restore, has_intentional_stroke_d,
}
use nexus_key.Engine.Core.{
  Engine, not_escaped, clear_active, mark_escaped, has_active, reset, process_key,
  update_spell_state, compose_all, recheck_bias,
}

-- `pop_back`.
unfoldable pub drop_last {ℓ} : {A : Type ℓ} → List A → List A
drop_last [] = []
drop_last (x ∷ []) = []
drop_last (x ∷ y ∷ xs) = x ∷ drop_last (y ∷ xs)

-- `resize` to a smaller size; a larger one leaves the buffer.
unfoldable pub cut : ℕ → List ℕ → List ℕ
cut target raw = if ltb target (length raw) then take target raw else raw

abbrev last_state : Engine → CharState
last_state e = at e.states (length e.states - 1)

-- The quick start consonant goes back to its key.
unfoldable pub undo_quick_start : Ctype → Engine → Engine
undo_quick_start ct e =
    let cleared : Engine = record e { states = []; raw_input = e.quick_start_key ∷ [] } in
    update_spell_state ct
      (record (process_key ct e.quick_start_key cleared) { quick_start_key = 0 })

-- The quick consonant goes back to the key that made it.
unfoldable pub undo_quick_consonant : Ctype → Engine → Engine
undo_quick_consonant ct e =
    let popped : Engine = record e {
      states = drop_last (undo_horn_u e.states (length e.states - 1));
      qc = mark_escaped e.qc;
    } in
    let literal = if e.qc.last_key == 0 then popped else process_key ct e.qc.last_key popped in
    recheck_bias ct (update_spell_state ct literal)

-- The last state goes, and the raw keys from its own on.
unfoldable pub pop_state : Ctype → Engine → Engine
pop_state ct e =
    let states = drop_last e.states in
    recheck_bias ct (
      update_spell_state ct (record e {
        states = states;
        raw_input = cut (last_state e).raw_idx e.raw_input;
        esc_raw_history = if length states == 0 then [] else drop_last e.esc_raw_history;
        qc = clear_active e.qc;
      }))

abbrev is_result : Option ℕ → ℕ → Bool
is_result none i = false
is_result (some r) i = i == r

unfoldable pub backspace : Ctype → Engine → Engine
backspace ct e =
    let f : Engine = record e { escape = not_escaped } in
    let g : Engine = record f { quick_start_key = 0 } in
    if length e.states == 0
    then e
    else if not (f.quick_start_key == 0) && length f.states == 2
    then undo_quick_start ct f
    else if is_result g.qc.result_index (length g.states - 1)
    then undo_quick_consonant ct g
    else pop_state ct g

-- The first letter of the raw keys takes the case of the composed word.
unfoldable pub match_case : Ctype → Wstring → Wstring → Wstring
match_case ct [] composed = []
match_case ct (c ∷ raw) [] = c ∷ raw
match_case ct (c ∷ raw) (d ∷ composed) = if ct.iswupper d then ct.towupper c ∷ raw else c ∷ raw

-- The text of a word that spell check would put back.
unfoldable pub restored : Ctype → Engine → Wstring → Wstring
restored ct e composed =
    let raw = match_case ct e.raw_input composed in
    if is_spell_excluded ct e.states e.config.spell_exclusions
      || has_intentional_stroke_d ct e.raw_input composed
    then composed
    else if wstring_eq raw composed
    then composed
    else if should_auto_restore raw composed
    then raw
    else composed

-- The buffer is known to be invalid, or only a prefix of a syllable.
unfoldable pub is_incomplete : Engine → Bool
is_incomplete e =
    e.spell_check_disabled
    || not (length e.states == 0)
      && is_valid_prefix (validate_syllable_state e.states e.config.allow_zwjf)

unfoldable pub commit_text : Ctype → Engine → Wstring
commit_text ct e =
    let composed = compose_all ct e.states in
    let restores = should_auto_restore e.raw_input composed in
    if not (e.quick_start_key == 0) && length e.raw_input == 1 && restores
    then e.raw_input
    else if e.qc.only_qc && restores
    then e.raw_input
    else if not e.config.spell_check_enabled || not e.config.auto_restore_enabled || has_active e.qc
    then composed
    else if is_incomplete e
    then restored ct e composed
    else composed

-- The text to commit, and the engine after `Reset`.
unfoldable pub commit : Ctype → Engine → Wstring × Engine
commit ct e = (commit_text ct e, reset e)

unfoldable pub seed_mod : Option ℕ → Modifier
seed_mod none = no_mod
seed_mod (some i) =
    if i == 0
    then circumflex
    else if i == 1
    then breve
    else if i == 2
    then horn
    else if i == 3
    then stroke
    else no_mod

unfoldable pub seed_tone : Option ℕ → Tone
seed_tone none = no_tone
seed_tone (some i) =
    if i == 0
    then acute
    else if i == 1
    then grave
    else if i == 2
    then hook
    else if i == 3
    then tilde
    else if i == 4
    then dot
    else no_tone

unfoldable pub seed_state : Decomposed → ℕ → CharState
seed_state d raw_idx = record {
  base = d.base;
  mod_ = seed_mod d.mod_idx;
  tone = seed_tone d.tone_idx;
  is_upper = d.is_upper;
  synthetic = false;
  raw_idx = raw_idx;
  tone_raw_idx = none;
}

-- The loop of `SeedFromText`; `none` if some character is no letter.
unfoldable pub seed_chars : Ctype → Wstring → Engine → Option Engine
seed_chars ct [] e = some e
seed_chars ct (ch ∷ text) e = elim (decompose_viet_char ct ch) [
  | none ↦ none
  | some d ↦ seed_chars ct text (record e {
    states = e.states ++ seed_state d (length e.raw_input) ∷ [];
    raw_input = e.raw_input ++ (if d.is_upper then ct.towupper d.base else d.base) ∷ [];
  })
]

unfoldable pub seed_from_text : Ctype → Wstring → Engine → Bool × Engine
seed_from_text ct text e = elim (seed_chars ct text (reset e)) [
  | none ↦ (false, reset e)
  | some f ↦
      (let g = update_spell_state ct f in
        (true, record g { eng_prot = check_english_bias ct g.states g.eng_prot }))
]
