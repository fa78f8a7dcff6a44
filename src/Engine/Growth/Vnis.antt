-- ===== src/Engine/Growth/Vnis.antt =====
-- The VNI modifiers.
use nexus_key.Base.{ℕ, suc, ◌&&◌, some, length, inl, inr, Option-cases, arith}
use nexus_key.State.{Modifier, no_mod, horn, mod_eq, at}
use nexus_key.Letters.{Ctype}
use nexus_key.Engine.Core.{Engine, escape_horn, escape_modifier}
use nexus_key.Engine.Growth.Horns.{more, both-Grows, escaped-Grows, undone-Grows}
use nexus_key.Scan.{find_last_at, find_first_at}
use nexus_key.Engine.Vni.{
  is_unmarked_at, can_switch, is_nucleus_vowel, is_letter_vowel, mark_plain, switch_mark,
  escape_mark, process_vni_vowel_modifier, vni_pair, vni_uo, vni_uu, handle_vni_horn,
}
use nexus_key.Engine.Growth.{
  Grows, Takes, AttemptTakes, Grows-trans, Grows-refl, set_mod_at-Grows, relocate-Grows, <|>-Takes,
  or_unhandled-Takes,
}

mark_plain-Takes :
    (ct : Ctype) (m : Modifier) (key : ℕ) (e : Engine) → AttemptTakes 1 e (mark_plain ct m key e)
unfolding mark_plain
mark_plain-Takes ct m key e =
    elim (Option-cases (find_last_at (is_unmarked_at e.states m) (length e.states))) [
      | inl n ↦ ground arith
      | inr (i, h) ↦
          (let marked = more e _ (set_mod_at-Grows e i m) in
            let placed =
              more e _ (Grows-trans 0 0 e _ _ (set_mod_at-Grows e i m) (relocate-Grows ct _)) in
            let still = Grows-refl e in ground arith)
    ]

switch_mark-Takes : (ct : Ctype) (m : Modifier) (e : Engine) → AttemptTakes 1 e (switch_mark ct m e)
unfolding switch_mark
switch_mark-Takes ct m e =
    elim (Option-cases (find_last_at (can_switch e.states m) (length e.states))) [
      | inl n ↦ ground arith
      | inr (i, h) ↦
          (let placed =
              more e _ (Grows-trans 0 0 e _ _ (undone-Grows e i m) (relocate-Grows ct _)) in
            ground arith)
    ]

escape_mark-Takes :
    (ct : Ctype) (m : Modifier) (key : ℕ) (e : Engine) → AttemptTakes 1 e (escape_mark ct m key e)
unfolding escape_mark
escape_mark-Takes ct m key e =
    elim (Option-cases (
      find_last_at (λ i. is_nucleus_vowel e.states i && mod_eq (at e.states i).mod_ m)
        (length e.states))) [
          | inl n ↦ ground arith
          | inr (i, h) ↦
              (let g = escaped-Grows ct key escape_modifier e _ (undone-Grows e i no_mod) in
                ground arith)
        ]

pub process_vni_vowel_modifier-Takes :
    (ct : Ctype) (m : Modifier) (key : ℕ) (e : Engine)
    → Takes 1 e (process_vni_vowel_modifier ct m key e)
unfolding process_vni_vowel_modifier
process_vni_vowel_modifier-Takes ct m key e =
    let tried = or_unhandled-Takes 1 e _ (
      <|>-Takes 1 e _ _ (mark_plain-Takes ct m key e)
        (<|>-Takes 1 e _ _ (switch_mark-Takes ct m e) (escape_mark-Takes ct m key e))) in
    let still = Grows-refl e in ground arith

vni_pair-Takes : (ct : Ctype) (key u : ℕ) (e : Engine) → AttemptTakes 1 e (vni_pair ct key u e)
unfolding vni_pair
vni_pair-Takes ct key u e =
    let o = suc u in
    let placed =
      λ (f : Engine) (g : Grows 0 e f). more e _ (Grows-trans 0 0 e f _ g (relocate-Grows ct f)) in
    let o_horned = placed _ (set_mod_at-Grows e o horn) in
    let u_horned = placed _ (set_mod_at-Grows e u horn) in
    let both_horned = placed _ (both-Grows e u o horn) in
    let both_plain = escaped-Grows ct key escape_horn e _ (both-Grows e u o no_mod) in ground arith

vni_uo-Takes : (ct : Ctype) (key : ℕ) (e : Engine) → AttemptTakes 1 e (vni_uo ct key e)
unfolding vni_uo
vni_uo-Takes ct key e =
    elim (Option-cases (find_last_at (is_letter_vowel e.states b'u') (length e.states))) [
      | inl n ↦ ground arith
      | inr (u, h) ↦
          elim (Option-cases (find_last_at (is_letter_vowel e.states b'o') (length e.states))) [
            | inl n ↦ ground arith
            | inr (o, g) ↦ (let p = vni_pair-Takes ct key u e in ground arith)
          ]
    ]

vni_uu-Takes : (ct : Ctype) (key : ℕ) (e : Engine) → AttemptTakes 1 e (vni_uu ct key e)
unfolding vni_uu
vni_uu-Takes ct key e =
    elim (Option-cases (find_first_at (is_letter_vowel e.states b'u') (length e.states) 0)) [
      | inl n ↦ ground arith
      | inr (i, h) ↦
          elim (Option-cases (find_last_at (is_letter_vowel e.states b'u') (length e.states))) [
            | inl n ↦ ground arith
            | inr (j, g) ↦
                (let placed =
                    more e _
                      (Grows-trans 0 0 e _ _ (set_mod_at-Grows e i horn) (relocate-Grows ct _)) in
                  let plain = escaped-Grows ct key escape_horn e _ (set_mod_at-Grows e i no_mod) in
                  ground arith)
          ]
    ]

pub handle_vni_horn-Takes :
    (ct : Ctype) (key : ℕ) (e : Engine) → Takes 1 e (handle_vni_horn ct key e)
unfolding handle_vni_horn
handle_vni_horn-Takes ct key e =
    let tried = or_unhandled-Takes 1 e _ (
      <|>-Takes 1 e _ _ (vni_uo-Takes ct key e) (
        <|>-Takes 1 e _ (some (process_vni_vowel_modifier ct horn key e)) (vni_uu-Takes ct key e)
          (process_vni_vowel_modifier-Takes ct horn key e))) in
    let still = Grows-refl e in ground arith
