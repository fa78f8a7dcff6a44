-- ===== src/Engine/Growth/Keys.antt =====
-- The modifier keys.
use nexus_key.Base.{ℕ, Bool, true, false, ◌&&◌, ◌||◌, if◌then◌else◌, inl, inr, Option-cases, arith}
use nexus_key.Action.{
  TypingAction, horn_insert_u, horn_insert_o, horn_w, circumflex_a, circumflex_e, circumflex_o,
  stroke_d, vni_circumflex, vni_horn, vni_breve, vni_stroke, horn_or_insert_u,
  horn_or_insert_u_no_start, undo_all_marks, is_telex_modifier_action, is_vni_modifier_action,
  is_user_defined_only_action,
}
use nexus_key.Config.{is_telex_mode, is_vni_mode}
use nexus_key.State.{circumflex, breve}
use nexus_key.Letters.{Ctype}
use nexus_key.English.{vietnamese}
use nexus_key.Helpers.{find_stroke_d_target}
use nexus_key.Engine.Core.{Engine}
use nexus_key.Engine.Relocate.{apply_auto_uo}
use nexus_key.Engine.Tone.{set_bias}
use nexus_key.Engine.Modify.{handle_horn_insert}
use nexus_key.Engine.Circumflex.{is_user_defined, suspect_english}
use nexus_key.Engine.Horn.{handle_horn_w}
use nexus_key.Engine.Modifier.{
  mark_synthetic, handle_horn_or_insert_u, process_modifier, check_stroke_english, try_modifier,
  modifier_section, user_section, section_if, is_telex_stroke, is_vni_stroke,
  handle_modifier_action,
}
use nexus_key.Engine.Growth.Marks.{
  handle_stroke_d-Takes, handle_undo_all_marks-Takes, handle_insert_char-Takes,
  handle_horn_insert-Takes, handle_adjacent_circumflex-Takes,
}
use nexus_key.Engine.Growth.Horns.{handle_horn_w-Takes}
use nexus_key.Engine.Growth.Vnis.{process_vni_vowel_modifier-Takes, handle_vni_horn-Takes}
use nexus_key.Engine.Growth.{
  Grows, Takes, Grows-after, Grows-refl, Grows-states, Grows-bias, update_spell_state-Grows,
}
use nexus_key.Engine.Lengths.{length-set, length-auto_uo}

mark_synthetic-Grows : (e : Engine) → Grows 0 e (mark_synthetic e)
unfolding mark_synthetic
mark_synthetic-Grows e = Grows-states e _ (length-set e.states _ _)

handle_horn_or_insert_u-Takes :
    (ct : Ctype) (action : TypingAction) (key : ℕ) (e : Engine)
    → Takes 1 e (handle_horn_or_insert_u ct action key e)
unfolding handle_horn_or_insert_u
handle_horn_or_insert_u-Takes ct action key e =
    let still = Grows-refl e in
    let horned = handle_horn_w-Takes ct key e in
    let f : Engine = (handle_horn_w ct key e).1 in
    let inserted = handle_horn_insert-Takes ct horn_insert_u key f in
    let marked = mark_synthetic-Grows (handle_horn_insert ct horn_insert_u key f).1 in ground arith

pub process_modifier-Takes :
    (ct : Ctype) (action : TypingAction) (key : ℕ) (e : Engine)
    → Takes 1 e (process_modifier ct action key e)
unfolding process_modifier
process_modifier-Takes ct horn_insert_o key e = handle_horn_insert-Takes ct horn_insert_o key e
process_modifier-Takes ct horn_insert_u key e = handle_horn_insert-Takes ct horn_insert_u key e
process_modifier-Takes ct horn_w key e = handle_horn_w-Takes ct key e
process_modifier-Takes ct circumflex_a key e =
    handle_adjacent_circumflex-Takes ct circumflex_a key e
process_modifier-Takes ct circumflex_e key e =
    handle_adjacent_circumflex-Takes ct circumflex_e key e
process_modifier-Takes ct circumflex_o key e =
    handle_adjacent_circumflex-Takes ct circumflex_o key e
process_modifier-Takes ct stroke_d key e = handle_stroke_d-Takes ct key e
process_modifier-Takes ct vni_circumflex key e =
    process_vni_vowel_modifier-Takes ct circumflex key e
process_modifier-Takes ct vni_horn key e = handle_vni_horn-Takes ct key e
process_modifier-Takes ct vni_breve key e = process_vni_vowel_modifier-Takes ct breve key e
process_modifier-Takes ct vni_stroke key e = handle_stroke_d-Takes ct key e
process_modifier-Takes ct horn_or_insert_u key e =
    handle_horn_or_insert_u-Takes ct horn_or_insert_u key e
process_modifier-Takes ct horn_or_insert_u_no_start key e =
    handle_horn_or_insert_u-Takes ct horn_or_insert_u_no_start key e
process_modifier-Takes ct undo_all_marks key e = handle_undo_all_marks-Takes e
process_modifier-Takes ct action key e = handle_insert_char-Takes ct action key e

check_stroke_english-Grows : (e : Engine) → Grows 0 e (check_stroke_english e)
unfolding check_stroke_english
check_stroke_english-Grows e = elim (Option-cases (find_stroke_d_target e.states)) [
  | inl n ↦ ground arith
  | inr (d, h) ↦
      (let b = Grows-bias 0 e e (suspect_english e).eng_prot (Grows-refl e) in ground arith)
]

try_modifier-Takes :
    (ct : Ctype) (action : TypingAction) (key : ℕ) (e : Engine)
    → Takes 1 e (try_modifier ct action key e)
unfolding try_modifier
try_modifier-Takes ct action key e =
    let f : Engine = (process_modifier ct action key e).1 in
    let applied = process_modifier-Takes ct action key e in
    let b : Engine = set_bias vietnamese f in
    let placed =
      Grows-states b (apply_auto_uo ct b.config.modern_ortho b.states) (length-auto_uo ct _ _) in
    let last =
      update_spell_state-Grows ct
        (record b { states = apply_auto_uo ct b.config.modern_ortho b.states }) in
    ground arith

modifier_section-Takes :
    (ct : Ctype) (action : TypingAction) (key lower : ℕ) (raw is_stroke : Bool) (e : Engine)
    → Takes 1 e (modifier_section ct action key lower raw is_stroke e)
unfolding modifier_section
modifier_section-Takes ct action key lower raw is_stroke e =
    let still = Grows-refl e in
    let checked = check_stroke_english-Grows e in
    let f = if is_stroke then check_stroke_english e else e in
    let tried = try_modifier-Takes ct action key f in ground arith

user_section-Takes :
    (ct : Ctype) (action : TypingAction) (key lower : ℕ) (e : Engine)
    → Takes 1 e (user_section ct action key lower e)
unfolding user_section
user_section-Takes ct action key lower e =
    let still = Grows-refl e in let tried = try_modifier-Takes ct action key e in ground arith

section_if-Takes :
    (k : ℕ) (e : Engine) (applies : Bool) (section : Engine → Bool × Engine) (r : Bool × Engine)
    → ((f : Engine) → Takes k f (section f))
    → Takes k e r
    → Takes k e (section_if applies section r)
section_if-Takes k e applies section (true, f) h g = g
section_if-Takes k e false section (false, f) h g = g
section_if-Takes k e true section (false, f) h g =
    Grows-after (if (section f).0 then k else 0) e f _ g (h f)

pub handle_modifier_action-Takes :
    (ct : Ctype) (action : TypingAction) (key lower : ℕ) (e : Engine)
    → Takes 1 e (handle_modifier_action ct action key lower e)
unfolding handle_modifier_action
handle_modifier_action-Takes ct action key lower e =
    let method = e.config.input_method in
    let telex_applies =
      is_telex_modifier_action action && (is_telex_mode method || is_user_defined method) in
    let vni_applies =
      is_vni_modifier_action action && (is_vni_mode method || is_user_defined method) in
    let user_applies = is_user_defined_only_action action && is_user_defined method in
    let telex_section = modifier_section ct action key lower true (is_telex_stroke action) in
    let vni_section = modifier_section ct action key lower false (is_vni_stroke action) in
    let after_telex : Bool × Engine = section_if telex_applies telex_section (false, e) in
    section_if-Takes 1 e user_applies (user_section ct action key lower)
      (section_if vni_applies vni_section after_telex) (user_section-Takes ct action key lower)
      (section_if-Takes 1 e vni_applies vni_section after_telex
        (modifier_section-Takes ct action key lower false (is_vni_stroke action))
        (section_if-Takes 1 e telex_applies telex_section (false, e)
          (modifier_section-Takes ct action key lower true (is_telex_stroke action))
          (Grows-refl e)))
