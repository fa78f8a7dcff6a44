-- ===== src/Engine/Modifier.antt =====
-- `ProcessModifier`, `HandleHornOrInsertU`, `WouldModifierRecoverOrEscape` and
-- `HandleModifierAction`.
use nexus_key.Base.{
  ℕ, ◌-◌, Bool, true, false, not, ◌&&◌, ◌||◌, ◌==◌, ltb, leb, if◌then◌else◌, none, some, length,
  set, get_elem?, is_some,
}
use nexus_key.Action.{
  TypingAction, horn_insert_o, horn_insert_u, horn_w, circumflex_a, circumflex_e, circumflex_o,
  stroke_d, vni_circumflex, vni_horn, vni_breve, vni_stroke, horn_or_insert_u,
  horn_or_insert_u_no_start, undo_all_marks, is_telex_modifier_action, is_vni_modifier_action,
  is_user_defined_only_action,
}
use nexus_key.State.{
  Modifier, no_mod, circumflex, breve, horn, stroke, mod_eq, is_vowel, is_horn, at,
}
use nexus_key.Letters.{Ctype, is_vowel_char}
use nexus_key.Config.{is_telex_mode, is_vni_mode}
use nexus_key.English.{vietnamese, is_hard, is_blocked_english_modifier}
use nexus_key.Helpers.{
  find_stroke_d_target, should_block_stroke_d_as_english, has_escapable_modifier,
}
use nexus_key.Engine.Core.{Engine, is_escaped, update_spell_state}
use nexus_key.Engine.ToneTarget.{is_tone_stop_coda_mismatch}
use nexus_key.Engine.Relocate.{apply_auto_uo}
use nexus_key.Engine.Tone.{set_bias, effective_spell_check}
use nexus_key.Engine.Modify.{
  would_modifier_key_match_exclusion, handle_stroke_d, handle_undo_all_marks, handle_insert_char,
  handle_horn_insert,
}
use nexus_key.Engine.Circumflex.{handle_adjacent_circumflex, is_user_defined, suspect_english}
use nexus_key.Engine.Horn.{handle_horn_w}
use nexus_key.Engine.Vni.{process_vni_vowel_modifier, handle_vni_horn}

-- `ActionToVniModifier`.
unfoldable pub action_to_vni_modifier : TypingAction → Modifier
action_to_vni_modifier vni_circumflex = circumflex
action_to_vni_modifier vni_horn = horn
action_to_vni_modifier vni_breve = breve
action_to_vni_modifier vni_stroke = stroke
action_to_vni_modifier _ = no_mod

-- `states_.back().synthetic = true`.
unfoldable pub mark_synthetic : Engine → Engine
mark_synthetic e =
    let i = length e.states - 1 in
    record e { states = set e.states i (record (at e.states i) { synthetic = true }) }

abbrev is_no_start : TypingAction → Bool
is_no_start horn_or_insert_u_no_start = true
is_no_start _ = false

-- The horn of `w`, or else a fresh ư.
unfoldable pub handle_horn_or_insert_u : Ctype → TypingAction → ℕ → Engine → Bool × Engine
handle_horn_or_insert_u ct action key e =
    let horned = handle_horn_w ct key e in
    let f : Engine = horned.1 in
    let inserted = handle_horn_insert ct horn_insert_u key f in
    if is_no_start action && length e.states == 0
    then (false, e)
    else if horned.0
    then horned
    else if not inserted.0
    then (false, inserted.1)
    else if ltb (length f.states) (length inserted.1.states)
    then (true, mark_synthetic inserted.1)
    else (true, inserted.1)

unfoldable pub process_modifier : Ctype → TypingAction → ℕ → Engine → Bool × Engine
process_modifier ct horn_insert_o key e = handle_horn_insert ct horn_insert_o key e
process_modifier ct horn_insert_u key e = handle_horn_insert ct horn_insert_u key e
process_modifier ct horn_w key e = handle_horn_w ct key e
process_modifier ct circumflex_a key e = handle_adjacent_circumflex ct circumflex_a key e
process_modifier ct circumflex_e key e = handle_adjacent_circumflex ct circumflex_e key e
process_modifier ct circumflex_o key e = handle_adjacent_circumflex ct circumflex_o key e
process_modifier ct stroke_d key e = handle_stroke_d ct key e
process_modifier ct vni_circumflex key e = process_vni_vowel_modifier ct circumflex key e
process_modifier ct vni_horn key e = handle_vni_horn ct key e
process_modifier ct vni_breve key e = process_vni_vowel_modifier ct breve key e
process_modifier ct vni_stroke key e = handle_stroke_d ct key e
process_modifier ct horn_or_insert_u key e = handle_horn_or_insert_u ct horn_or_insert_u key e
process_modifier ct horn_or_insert_u_no_start key e =
    handle_horn_or_insert_u ct horn_or_insert_u_no_start key e
process_modifier ct undo_all_marks key e = handle_undo_all_marks e
process_modifier ct action key e = handle_insert_char ct action key e

abbrev is_horn_insert : TypingAction → Bool
is_horn_insert horn_insert_o = true
is_horn_insert horn_insert_u = true
is_horn_insert _ = false

abbrev inserted_base : TypingAction → ℕ
inserted_base horn_insert_o = b'o'
inserted_base _ = b'u'

-- The key before the last one is `lower`.
abbrev is_repeated : Ctype → ℕ → Engine → Bool
is_repeated ct lower e =
    leb 2 (length e.raw_input) && (elim (get_elem? e.raw_input (length e.raw_input - 2)) [
      | none ↦ false
      | some k ↦ ct.towlower k == lower
    ])

unfoldable pub can_escape_telex : Ctype → TypingAction → ℕ → ℕ → Engine → Bool
can_escape_telex ct action key lower e =
    let last = at e.states (length e.states - 1) in
    if lower == b'w'
    then has_escapable_modifier e.states horn false || has_escapable_modifier e.states breve false
    else if lower == b'd'
    then has_escapable_modifier e.states stroke true || is_some (find_stroke_d_target e.states)
    else if is_vowel_char key && not (length e.states == 0)
    then is_vowel last && (last.base == lower && mod_eq last.mod_ circumflex)
    else is_horn_insert action
      && not (length e.states == 0)
      && is_repeated ct lower e
      && (last.base == inserted_base action && is_horn last)

unfoldable pub can_escape_vni : TypingAction → Engine → Bool
can_escape_vni action e =
    let m = action_to_vni_modifier action in
    if mod_eq m stroke
    then has_escapable_modifier e.states m true || is_some (find_stroke_d_target e.states)
    else not (mod_eq m no_mod) && has_escapable_modifier e.states m false

unfoldable pub would_modifier_recover_or_escape : Ctype → TypingAction → ℕ → ℕ → Engine → Bool
would_modifier_recover_or_escape ct action key lower e =
    (if is_telex_modifier_action action
      then can_escape_telex ct action key lower e
      else can_escape_vni action e)
    || would_modifier_key_match_exclusion ct e lower
    || is_tone_stop_coda_mismatch ct e.states

-- The stroke of a plain d that would make no Vietnamese word.
unfoldable pub check_stroke_english : Engine → Engine
check_stroke_english e =
    if is_hard e.eng_prot.bias || ltb (length e.states) 3
    then e
    else (elim (find_stroke_d_target e.states) [
      | none ↦ e
      | some d ↦
          if mod_eq (at e.states d).mod_ no_mod && should_block_stroke_d_as_english e.states d
          then suspect_english e
          else e
    ])

-- `block`, with the test of the raw keys for all but the VNI keys.
unfoldable pub is_modifier_blocked : Ctype → ℕ → Bool → Engine → Bool
is_modifier_blocked ct lower checks_raw e =
    let blocked =
      is_escaped e.escape
      || not e.config.allow_english_bypass && is_hard e.eng_prot.bias
      || checks_raw && effective_spell_check e && is_blocked_english_modifier ct e.raw_input in
    blocked
    && not (
        not (is_escaped e.escape)
        && not (length e.config.spell_exclusions == 0)
        && would_modifier_key_match_exclusion ct e lower)

-- What follows a modifier that was applied.
unfoldable pub try_modifier : Ctype → TypingAction → ℕ → Engine → Bool × Engine
try_modifier ct action key e =
    let (applied, f) = process_modifier ct action key e in
    let b = set_bias vietnamese f in
    if applied
    then (
      true,
      update_spell_state ct (record b { states = apply_auto_uo ct b.config.modern_ortho b.states }),
    )
    else (false, f)

-- The sections 2a and 2b.
unfoldable pub modifier_section :
    Ctype → TypingAction → ℕ → ℕ → Bool → Bool → Engine → Bool × Engine
modifier_section ct action key lower checks_raw is_stroke e =
    let f = if is_stroke then check_stroke_english e else e in
    let can_apply =
      not (effective_spell_check f && f.spell_check_disabled)
      || would_modifier_recover_or_escape ct action key lower f in
    if not (is_modifier_blocked ct lower checks_raw f) && can_apply
    then try_modifier ct action key f
    else (false, f)

-- The section 2d.
unfoldable pub user_section : Ctype → TypingAction → ℕ → ℕ → Engine → Bool × Engine
user_section ct action key lower e =
    if is_modifier_blocked ct lower true e then (false, e) else try_modifier ct action key e

abbrev pub is_telex_stroke : TypingAction → Bool
is_telex_stroke stroke_d = true
is_telex_stroke _ = false

abbrev pub is_vni_stroke : TypingAction → Bool
is_vni_stroke vni_stroke = true
is_vni_stroke _ = false

-- A section that does not apply leaves the engine.
abbrev pub section_if : Bool → (Engine → Bool × Engine) → Bool × Engine → Bool × Engine
section_if applies section (handled, e) =
    if handled then (true, e) else if applies then section e else (false, e)

unfoldable pub handle_modifier_action : Ctype → TypingAction → ℕ → ℕ → Engine → Bool × Engine
handle_modifier_action ct action key lower e =
    let method = e.config.input_method in
    let is_telex =
      is_telex_modifier_action action && (is_telex_mode method || is_user_defined method) in
    let is_vni = is_vni_modifier_action action && (is_vni_mode method || is_user_defined method) in
    let is_user = is_user_defined_only_action action && is_user_defined method in
    section_if is_user (user_section ct action key lower) (
      section_if is_vni (modifier_section ct action key lower false (is_vni_stroke action)) (
        section_if is_telex (modifier_section ct action key lower true (is_telex_stroke action))
          (false, e)))
