-- ===== src/Engine/Tone.antt =====
-- `ToneMatchesExclusion`, `ProcessTone`, `ProcessClearTone` and `HandleToneFsm`.
use nexus_key.Base.{
  ℕ, ◌-◌, Bool, true, false, not, ◌&&◌, ◌||◌, ◌==◌, ltb, leb, if◌then◌else◌, Option, none, some,
  length, set,
}
use nexus_key.Action.{
  TypingAction, clear_tone, tone_acute, tone_grave, tone_hook, tone_tilde, tone_dot,
}
use nexus_key.State.{
  CharState, Tone, no_tone, acute, grave, hook, tilde, dot, tone_eq, tone_value, has_tone, at,
}
use nexus_key.Letters.{Ctype, compose}
use nexus_key.English.{
  hard_english, soft_english, vietnamese, LanguageBias, is_blocked_english_tone,
  update_tone_insistence, is_hard_english_tone_context, has_structural_vcv_pattern,
  has_invalid_adjacent_vowel_pair,
}
use nexus_key.Validator.{is_valid, validate_syllable_state}
use nexus_key.Helpers.{would_tone_match_exclusion, has_stop_final_coda}
use nexus_key.Engine.Core.{
  Engine, escape_tone, not_escaped, is_escaped, process_char, process_key, erase_consumed_raw,
  update_spell_state, recheck_bias,
}
use nexus_key.Engine.ToneTarget.{find_tone_target}
use nexus_key.Engine.Relocate.{apply_auto_uo}

-- `ActionToTone`.
unfoldable pub action_to_tone : TypingAction → Tone
action_to_tone tone_acute = acute
action_to_tone tone_grave = grave
action_to_tone tone_hook = hook
action_to_tone tone_tilde = tilde
action_to_tone tone_dot = dot
action_to_tone _ = no_tone

-- `FindToneTarget` on the engine's states.
abbrev pub target_of : Ctype → Engine → Option ℕ
target_of ct e = find_tone_target ct e.config.modern_ortho e.states

unfoldable pub tone_matches_exclusion : Ctype → Engine → Option ℕ → Tone → Bool
tone_matches_exclusion ct e none t = false
tone_matches_exclusion ct e (some i) t =
    let exclusions = e.config.spell_exclusions in
    let toned = compose ct (record (at e.states i) { tone = t }) in
    if length exclusions == 0
    then false
    else would_tone_match_exclusion ct e.states exclusions i toned

-- `states_[i] = s`.
abbrev pub set_state : Engine → ℕ → CharState → Engine
set_state e i s = record e { states = set e.states i s }

-- The same tone again: the tone goes, its raw key is erased and the key stands as a letter.
unfoldable pub escape_tone_at : Ctype → ℕ → ℕ → Engine → Engine
escape_tone_at ct key i e =
    let s = at e.states i in
    let cleared = set_state e i (record s { tone = no_tone }) in
    let erased : Engine = elim s.tone_raw_idx [
      | none ↦ cleared
      | some r ↦ erase_consumed_raw r cleared
    ] in
    let unset = set_state erased i (record (at erased.states i) { tone_raw_idx = none }) in
    record (process_key ct key unset) { escape = escape_tone }

-- A new tone, or another one than the vowel has.
unfoldable pub apply_tone_at : Tone → ℕ → Engine → Engine
apply_tone_at t i e =
    let raw = if length e.raw_input == 0 then none else some (length e.raw_input - 1) in
    record (set_state e i (record (at e.states i) { tone = t; tone_raw_idx = raw })) {
      escape = not_escaped;
    }

-- `HandleToneFsm` may hand over the target that a gate has found; the search would find the same.
-- A target of `none` leaves the search to the function, as `SIZE_MAX` does.
unfoldable pub process_tone : Ctype → Tone → ℕ → Option ℕ → Engine → Bool × Engine
process_tone ct t key cached e =
    let target : Option ℕ = elim cached [ none ↦ target_of ct e | some i ↦ some i ] in
    if tone_value t == 0 then (false, e) else (elim target [
      | none ↦ (false, e)
      | some i ↦
          if tone_eq (at e.states i).tone t
          then (true, escape_tone_at ct key i e)
          else (true, apply_tone_at t i e)
    ])

unfoldable pub process_clear_tone : Ctype → Engine → Bool × Engine
process_clear_tone ct e = elim (target_of ct e) [
  | none ↦ (false, e)
  | some i ↦
      if has_tone (at e.states i)
      then (true, set_state e i (record (at e.states i) { tone = no_tone; tone_raw_idx = none }))
      else (false, e)
]

abbrev pub effective_spell_check : Engine → Bool
effective_spell_check e = e.config.spell_check_enabled && not e.config.allow_english_bypass

-- `asLiteral`: the key stands as a letter.
unfoldable pub as_literal : Ctype → ℕ → Bool → Engine → Engine
as_literal ct lower upper e = update_spell_state ct (process_char lower upper e)

-- The buffer with the requested tone in place of the target's is `Valid`.
unfoldable pub would_recover : Engine → ℕ → Tone → Bool
would_recover e i t =
    has_tone (at e.states i)
    && is_valid (
        validate_syllable_state (set_state e i (record (at e.states i) { tone = t })).states
          e.config.allow_zwjf)

-- The gate of an invalid buffer: whether it lets the tone through.
unfoldable pub passes_spell_gate : Ctype → Engine → Tone → Bool
passes_spell_gate ct e t = elim (target_of ct e) [
  | none ↦ false
  | some i ↦
      tone_eq (at e.states i).tone t
      || tone_matches_exclusion ct e (some i) t
      || would_recover e i t
]

-- The engine after a gate, and whether the key is let through.
pub record Gate : Type 0 where
  pub passed : Bool
  pub engine : Engine

abbrev pub set_bias : LanguageBias → Engine → Engine
set_bias b e = record e { eng_prot = record (e.eng_prot) { bias = b } }

-- The buffer has a structure that Vietnamese does not have.
unfoldable pub looks_english : Ctype → Engine → ℕ → Bool → Bool
looks_english ct e key is_telex_tone =
    (if is_telex_tone
      then is_hard_english_tone_context ct e.states key
      else leb 4 (length e.states) && has_structural_vcv_pattern e.states)
    || has_invalid_adjacent_vowel_pair e.states

-- English protection, unless the user bypasses it.
unfoldable pub english_gate : Ctype → ℕ → Bool → Engine → Gate
english_gate ct key is_telex_tone e =
    if e.config.allow_english_bypass
    then record { passed = true; engine = e }
    else (elim e.eng_prot.bias [
      | hard_english ↦ record { passed = false; engine = e }
      | soft_english ↦
          (let (insisted, p) = update_tone_insistence key e.eng_prot in
            let e' : Engine = record e { eng_prot = p } in
            if insisted then structure e' else record { passed = false; engine = e' })
      | _ ↦ structure e
    ])
  where
    structure : Engine → Gate
    structure f =
        if looks_english ct f key is_telex_tone
        then record { passed = false; engine = set_bias hard_english f }
        else record { passed = true; engine = f }

-- Grave, hook and tilde do not go with a stop final.
unfoldable pub passes_stop_gate : Ctype → Engine → Tone → Bool
passes_stop_gate ct e t = not (
    effective_spell_check e
    && not e.spell_check_disabled
    && (tone_value t == 2 || tone_value t == 3 || tone_value t == 4)
    && has_stop_final_coda ct e.states)

-- The gates before the English protection.
unfoldable pub passes_early_gates : Ctype → Engine → Tone → Bool → Bool
passes_early_gates ct e t is_telex_tone =
    (not (effective_spell_check e && e.spell_check_disabled) || passes_spell_gate ct e t)
    && not (is_escaped e.escape)
    && (not (is_telex_tone && effective_spell_check e && is_blocked_english_tone ct e.raw_input)
        || tone_matches_exclusion ct e (target_of ct e) t)

-- What follows a tone that was applied or escaped.
unfoldable pub finish_tone : Ctype → Engine → Engine
finish_tone ct e =
    let f = if is_escaped e.escape then recheck_bias ct e else set_bias vietnamese e in
    update_spell_state ct (record f { states = apply_auto_uo ct e.config.modern_ortho f.states })

-- The tone keys, when a tone is requested.
unfoldable pub handle_tone : Ctype → Tone → ℕ → ℕ → Bool → Engine → Bool × Engine
handle_tone ct t key lower upper e =
    let is_telex_tone = ltb lower b'0' || ltb b'9' lower in
    let gate = english_gate ct key is_telex_tone e in
    let done = process_tone ct t key none gate.engine in
    if not (passes_early_gates ct e t is_telex_tone)
    then (true, as_literal ct lower upper e)
    else if not gate.passed
    then (true, as_literal ct lower upper gate.engine)
    else if not (passes_stop_gate ct gate.engine t)
    then (true, as_literal ct lower upper gate.engine)
    else if done.0
    then (true, finish_tone ct done.1)
    else (false, gate.engine)

abbrev is_clear : TypingAction → Bool
is_clear clear_tone = true
is_clear _ = false

unfoldable pub handle_tone_fsm : Ctype → TypingAction → ℕ → ℕ → Bool → Engine → Bool × Engine
handle_tone_fsm ct action key lower upper e =
    let t = if length e.states == 0 then no_tone else action_to_tone action in
    let cleared = process_clear_tone ct e in
    if is_clear action
      && not (length e.states == 0)
      && effective_spell_check e
      && e.spell_check_disabled
    then (true, update_spell_state ct (process_key ct key e))
    else if is_clear action && not (length e.states == 0) && cleared.0
    then (true, update_spell_state ct cleared.1)
    else if tone_value t == 0
    then (false, e)
    else handle_tone ct t key lower upper e
