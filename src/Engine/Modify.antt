-- ===== src/Engine/Modify.antt =====
-- `HandleStrokeD`, `HandleUndoAllMarks`, `HandleInsertChar`, `HandleHornInsert`
-- and `FinalizeRegularChar`.
use nexus_key.Base.{
  ℕ, ◌-◌, Bool, true, false, not, ◌&&◌, ◌||◌, ◌==◌, leb, if◌then◌else◌, Option, none, some, List,
  [], ◌∷◌, ◌++◌, map, codes, String, length, any, get_elem?,
}
use nexus_key.Action.{
  TypingAction, insert_a_breve, insert_a_breve_upper, insert_a_circumflex,
  insert_a_circumflex_upper, insert_d_stroke, insert_d_stroke_upper, insert_e_circumflex,
  insert_e_circumflex_upper, insert_o_circumflex, insert_o_circumflex_upper, insert_o_horn,
  insert_o_horn_upper, insert_u_horn, insert_u_horn_upper, horn_insert_o,
}
use nexus_key.State.{
  CharState, Modifier, no_mod, circumflex, breve, horn, stroke, mod_eq, no_tone, tone_value, blank,
  is_horn, has_modifier, has_tone, at,
}
use nexus_key.Letters.{Ctype}
use nexus_key.Config.{InputMethod, telex, simple_telex, is_telex_mode}
use nexus_key.English.{hard_english, is_hard, check_english_bias, is_hard_english_raw_start}
use nexus_key.Helpers.{
  set_mod, find_stroke_d_target, is_stroke_d_escape_allowed, would_stroke_d_match_exclusion,
  would_any_modifier_match_exclusion, check_zwjf_initial_bias,
}
use nexus_key.Engine.Core.{
  Engine, EscapeKind, escape_tone, escape_circumflex, escape_horn, escape_breve, escape_stroke,
  escape_modifier, last_raw, process_key, erase_consumed_raw, update_spell_state,
}
use nexus_key.Engine.Relocate.{relocate_tone_to_target, apply_auto_uo}
use nexus_key.Engine.Edit.{drop_last}

unfoldable pub would_modifier_key_match_exclusion : Ctype → Engine → ℕ → Bool
would_modifier_key_match_exclusion ct e lower =
    if lower == b'd'
    then stroked
    else if lower == b'w'
    then marked horn "uo" || marked breve "a"
    else if lower == b'a' || lower == b'e' || lower == b'o'
    then marked circumflex "aeo"
    else if lower == b'6'
    then marked circumflex "aeo"
    else if lower == b'7'
    then marked horn "uo"
    else if lower == b'8'
    then marked breve "a"
    else if lower == b'9'
    then stroked
    else false
  where
    marked : Modifier → String → Bool
    marked m eligible =
        would_any_modifier_match_exclusion ct e.states e.config.spell_exclusions m (codes eligible)

    stroked : Bool
    stroked = would_stroke_d_match_exclusion ct e.states e.config.spell_exclusions

abbrev is_stroke_escaped : EscapeKind → Bool
is_stroke_escaped escape_stroke = true
is_stroke_escaped _ = false

-- A target that is already đ goes back to d, where that is allowed.
unfoldable pub unstroke : Ctype → ℕ → ℕ → Engine → Bool × Engine
unstroke ct key d e =
    if not (is_stroke_d_escape_allowed (length e.states) d)
    then (false, e)
    else if d == 0
        && (not (length e.config.spell_exclusions == 0)
            && would_modifier_key_match_exclusion ct e (ct.towlower key))
    then (false, e)
    else (
      true,
      process_key ct key (record e { states = set_mod e.states d no_mod; escape = escape_stroke }),
    )

unfoldable pub handle_stroke_d : Ctype → ℕ → Engine → Bool × Engine
handle_stroke_d ct key e =
    if is_stroke_escaped e.escape then (false, e) else (elim (find_stroke_d_target e.states) [
      | none ↦ (false, e)
      | some d ↦
          if mod_eq (at e.states d).mod_ no_mod
          then (true, record e { states = set_mod e.states d stroke })
          else if mod_eq (at e.states d).mod_ stroke
          then unstroke ct key d e
          else (false, e)
    ])

abbrev pub is_marked : CharState → Bool
is_marked s = has_modifier s || has_tone s

unfoldable pub unmark : CharState → CharState
unmark s =
    if is_marked s then record s { mod_ = no_mod; tone = no_tone; tone_raw_idx = none } else s

unfoldable pub handle_undo_all_marks : Engine → Bool × Engine
handle_undo_all_marks e =
    if length e.states == 0
    then (false, e)
    else if any is_marked e.states
    then (true, record e { states = map unmark e.states; escape = escape_tone })
    else (false, record e { states = map unmark e.states })

-- A letter that an action inserts.
pub record Inserted : Type 0 where
  pub base : ℕ
  pub mod_ : Modifier
  pub upper : Bool

-- The `switch` of `HandleInsertChar`.
unfoldable pub inserted : TypingAction → Option Inserted
inserted insert_a_breve = some (record { base = b'a'; mod_ = breve; upper = false })
inserted insert_a_breve_upper = some (record { base = b'a'; mod_ = breve; upper = true })
inserted insert_a_circumflex = some (record { base = b'a'; mod_ = circumflex; upper = false })
inserted insert_a_circumflex_upper = some (record { base = b'a'; mod_ = circumflex; upper = true })
inserted insert_d_stroke = some (record { base = b'd'; mod_ = stroke; upper = false })
inserted insert_d_stroke_upper = some (record { base = b'd'; mod_ = stroke; upper = true })
inserted insert_e_circumflex = some (record { base = b'e'; mod_ = circumflex; upper = false })
inserted insert_e_circumflex_upper = some (record { base = b'e'; mod_ = circumflex; upper = true })
inserted insert_o_circumflex = some (record { base = b'o'; mod_ = circumflex; upper = false })
inserted insert_o_circumflex_upper = some (record { base = b'o'; mod_ = circumflex; upper = true })
inserted insert_o_horn = some (record { base = b'o'; mod_ = horn; upper = false })
inserted insert_o_horn_upper = some (record { base = b'o'; mod_ = horn; upper = true })
inserted insert_u_horn = some (record { base = b'u'; mod_ = horn; upper = false })
inserted insert_u_horn_upper = some (record { base = b'u'; mod_ = horn; upper = true })
inserted _ = none

abbrev pub escape_kind : Modifier → EscapeKind
escape_kind horn = escape_horn
escape_kind circumflex = escape_circumflex
escape_kind breve = escape_breve
escape_kind stroke = escape_stroke
escape_kind no_mod = escape_modifier

-- The key before the last one is the same key.
abbrev is_doubled : Ctype → ℕ → Engine → Bool
is_doubled ct key e =
    let before = get_elem? e.raw_input (length e.raw_input - 2) in
    not (length e.states == 0)
    && leb 2 (length e.raw_input)
    && (elim before [ none ↦ false | some k ↦ ct.towlower k == ct.towlower key ])

-- A letter that stands last, and whose key is pressed twice, is taken back for the key; otherwise
-- the letter is inserted.
unfoldable pub insert_letter : Ctype → ℕ → Inserted → EscapeKind → Engine → Engine
insert_letter ct key l kind e =
    let last = at e.states (length e.states - 1) in
    let popped : Engine = record e { states = drop_last e.states } in
    let s : CharState = record blank {
      base = l.base;
      mod_ = l.mod_;
      is_upper = l.upper;
      raw_idx = last_raw e;
    } in
    if is_doubled ct key e && (last.base == l.base && mod_eq last.mod_ l.mod_)
    then record (process_key ct key (erase_consumed_raw last.raw_idx popped)) { escape = kind }
    else record e { states = e.states ++ s ∷ [] }

unfoldable pub handle_insert_char : Ctype → TypingAction → ℕ → Engine → Bool × Engine
handle_insert_char ct action key e = elim (inserted action) [
  | none ↦ (false, e)
  | some l ↦ (true, insert_letter ct key l (escape_kind l.mod_) e)
]

abbrev pub is_simple_telex : InputMethod → Bool
is_simple_telex simple_telex = true
is_simple_telex _ = false

abbrev pub horn_insert_base : TypingAction → ℕ
horn_insert_base horn_insert_o = b'o'
horn_insert_base _ = b'u'

unfoldable pub handle_horn_insert : Ctype → TypingAction → ℕ → Engine → Bool × Engine
handle_horn_insert ct action key e = if is_simple_telex e.config.input_method then (false, e) else (
  true,
  insert_letter ct key (record { base = horn_insert_base action; mod_ = horn; upper = false })
      escape_horn e,
)

abbrev pub is_telex : InputMethod → Bool
is_telex telex = true
is_telex _ = false

-- A leading synthetic ư without a tone, before raw keys such as wh and wr.
unfoldable pub reverts_w : Ctype → Engine → Bool
reverts_w ct e =
    let s = at e.states 0 in
    is_telex e.config.input_method
    && not (is_hard e.eng_prot.bias)
    && not (length e.states == 0)
    && s.synthetic
    && s.base == b'u'
    && is_horn s
    && tone_value s.tone == 0
    && is_hard_english_raw_start ct e.raw_input

-- `states_[0]` as the literal `w` that was typed.
abbrev pub reverted : List CharState → List CharState
reverted [] = []
reverted (s ∷ states) = record s { base = b'w'; mod_ = no_mod; synthetic = false } ∷ states

unfoldable pub finalize_regular_char : Ctype → Engine → Engine
finalize_regular_char ct e =
    let modern = e.config.modern_ortho in
    let placed = apply_auto_uo ct modern (relocate_tone_to_target ct modern e.states) in
    let f = update_spell_state ct (record e { states = placed }) in
    let g : Engine = record f { eng_prot = check_english_bias ct f.states f.eng_prot } in
    let h : Engine =
      if reverts_w ct g
      then record g {
        states = reverted g.states;
        eng_prot = record (g.eng_prot) { bias = hard_english };
      }
      else g in
    if is_telex_mode h.config.input_method
    then record h { eng_prot = check_zwjf_initial_bias h.config h.states h.eng_prot }
    else h
