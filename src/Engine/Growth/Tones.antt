-- ===== src/Engine/Growth/Tones.antt =====
-- The tone keys.
use nexus_key.Base.{
  ℕ, Bool, true, false, ◌||◌, ◌==◌, ltb, if◌then◌else◌, Option, none, some, length, arith,
}
use nexus_key.Action.{TypingAction}
use nexus_key.State.{CharState, Tone, no_tone, tone_value, tone_eq, has_tone, at}
use nexus_key.Letters.{Ctype}
use nexus_key.English.{vietnamese}
use nexus_key.Engine.Core.{
  Engine, is_escaped, not_escaped, escape_tone, process_char, erase_consumed_raw, recheck_bias,
}
use nexus_key.Engine.Relocate.{apply_auto_uo}
use nexus_key.Engine.Tone.{
  escape_tone_at, apply_tone_at, process_tone, process_clear_tone, as_literal, english_gate,
  finish_tone, handle_tone, handle_tone_fsm, action_to_tone, target_of, set_state, set_bias,
}
use nexus_key.Engine.Growth.{
  Grows, Takes, Grows-if, Grows-choose, Grows-states, Grows-still, Grows-refl, Grows-weaken,
  Grows-escape, Grows-bias, process_key-Grows, Grows-trans, update_spell_state-Grows,
  recheck_bias-Grows, erase_consumed_raw-Grows,
}
use nexus_key.Engine.Lengths.{length-set, length-snoc, length-auto_uo}

set_state-Grows : (e : Engine) (i : ℕ) (s : CharState) → Grows 0 e (set_state e i s)
set_state-Grows e i s = ground (arith, length-set e.states i s)

erased-Grows :
    (e f : Engine) (r : Option ℕ)
    → Grows 0 e f
    → Grows 0 e (elim r [ none ↦ f | some i ↦ erase_consumed_raw i f ])
erased-Grows e f none h = h
erased-Grows e f (some i) h = Grows-trans 0 0 e f _ h (erase_consumed_raw-Grows i f)

escape_tone_at-Grows : (ct : Ctype) (key i : ℕ) (e : Engine) → Grows 1 e (escape_tone_at ct key i e)
unfolding escape_tone_at
escape_tone_at-Grows ct key i e =
    let s = at e.states i in
    let cleared = set_state e i (record s { tone = no_tone }) in
    let erased : Engine = elim s.tone_raw_idx [
      | none ↦ cleared
      | some r ↦ erase_consumed_raw r cleared
    ] in
    let unset = set_state erased i (record (at erased.states i) { tone_raw_idx = none }) in
    let h = erased-Grows e cleared s.tone_raw_idx (set_state-Grows e i _) in
    let g = Grows-trans 0 0 e erased unset h (set_state-Grows erased i _) in
    Grows-escape 1 e _ escape_tone (Grows-trans 0 1 e unset _ g (process_key-Grows ct key unset))

apply_tone_at-Grows : (t : Tone) (i : ℕ) (e : Engine) → Grows 0 e (apply_tone_at t i e)
unfolding apply_tone_at
apply_tone_at-Grows t i e = Grows-escape 0 e _ not_escaped (set_state-Grows e i _)

process_tone-Grows :
    (ct : Ctype) (t : Tone) (key : ℕ) (c : Option ℕ) (e : Engine)
    → Grows 1 e (process_tone ct t key c e).1
unfolding process_tone
process_tone-Grows ct t key c e =
    Grows-if 1 e (tone_value t == 0) _ _ (Grows-still 1 e)
      (on_target (elim c [ none ↦ target_of ct e | some i ↦ some i ]))
  where
    on_target :
        (o : Option ℕ)
        → Grows 1 e
            (elim o as (λ o. Bool × Engine) [
              | none ↦ (false, e)
              | some i ↦
                  if tone_eq (at e.states i).tone t
                  then (true, escape_tone_at ct key i e)
                  else (true, apply_tone_at t i e)
            ]).1
    on_target none = Grows-still 1 e
    on_target (some i) =
        Grows-if 1 e (tone_eq (at e.states i).tone t) _ _ (escape_tone_at-Grows ct key i e)
          (Grows-weaken 0 1 e _ (omega arith) (apply_tone_at-Grows t i e))

process_clear_tone-Grows : (ct : Ctype) (e : Engine) → Grows 0 e (process_clear_tone ct e).1
unfolding process_clear_tone
process_clear_tone-Grows ct e =
    elim (target_of ct e)
      as (λ o.
        Grows 0 e
          (elim o as (λ o. Bool × Engine) [
            | none ↦ (false, e)
            | some i ↦
                if has_tone (at e.states i)
                then (
                  true,
                  set_state e i (record (at e.states i) { tone = no_tone; tone_raw_idx = none }),
                )
                else (false, e)
          ]).1) [
            | none ↦ Grows-refl e
            | some i ↦
                Grows-if 0 e (has_tone (at e.states i)) _ _ (set_state-Grows e i _) (Grows-refl e)
          ]

process_char-Grows :
    (lower : ℕ) (upper : Bool) (e : Engine) → Grows 1 e (process_char lower upper e)
unfolding process_char
process_char-Grows lower upper e = grind (arith, length-snoc)

as_literal-Grows :
    (ct : Ctype) (lower : ℕ) (upper : Bool) (e : Engine) → Grows 1 e (as_literal ct lower upper e)
unfolding as_literal
as_literal-Grows ct lower upper e =
    Grows-trans 1 0 e _ _ (process_char-Grows lower upper e) (update_spell_state-Grows ct _)

english_gate-Grows :
    (ct : Ctype) (key : ℕ) (b : Bool) (e : Engine) → Grows 0 e (english_gate ct key b e).engine
unfolding english_gate
english_gate-Grows ct key b e = ground arith

finish_tone-Grows : (ct : Ctype) (e : Engine) → Grows 0 e (finish_tone ct e)
unfolding finish_tone
finish_tone-Grows ct e =
    let f = if is_escaped e.escape then recheck_bias ct e else set_bias vietnamese e in
    let g : Grows 0 e f =
      Grows-choose 0 e (is_escaped e.escape) _ _ (recheck_bias-Grows ct e)
        (Grows-bias 0 e e _ (Grows-refl e)) in
    let placed =
      Grows-states f (apply_auto_uo ct e.config.modern_ortho f.states) (length-auto_uo ct _ _) in
    Grows-trans 0 0 e _ _ (Grows-trans 0 0 e f _ g placed) (update_spell_state-Grows ct _)

handle_tone-Takes :
    (ct : Ctype) (t : Tone) (key lower : ℕ) (upper : Bool) (e : Engine)
    → Takes 1 e (handle_tone ct t key lower upper e)
unfolding handle_tone
handle_tone-Takes ct t key lower upper e =
    let telex = ltb lower b'0' || ltb b'9' lower in
    let gate = english_gate ct key telex e in
    let g = english_gate-Grows ct key telex e in
    let applied = process_tone ct t key none gate.engine in
    let literal_after =
      Grows-trans 0 1 e gate.engine _ g (as_literal-Grows ct lower upper gate.engine) in
    let finished =
      Grows-trans 1 0 e applied.1 _
        (Grows-trans 0 1 e gate.engine _ g (process_tone-Grows ct t key none gate.engine))
        (finish_tone-Grows ct applied.1) in
    ground (arith, as_literal-Grows ct lower upper e)

pub handle_tone_fsm-Takes :
    (ct : Ctype) (action : TypingAction) (key lower : ℕ) (upper : Bool) (e : Engine)
    → Takes 1 e (handle_tone_fsm ct action key lower upper e)
unfolding handle_tone_fsm
handle_tone_fsm-Takes ct action key lower upper e =
    let still = Grows-refl e in
    let cleared =
      Grows-trans 0 0 e _ _ (process_clear_tone-Grows ct e) (update_spell_state-Grows ct _) in
    let literal_key =
      Grows-trans 1 0 e _ _ (process_key-Grows ct key e) (update_spell_state-Grows ct _) in
    ground (
      arith,
      handle_tone-Takes ct (if length e.states == 0 then no_tone else action_to_tone action) key
          lower upper e,
    )
