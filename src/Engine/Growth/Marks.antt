-- ===== src/Engine/Growth/Marks.antt =====
-- The circumflex, the stroke, the inserted letters and the other marks.
use nexus_key.Base.{
  ℕ, zero, suc, ◌-◌, Bool, true, false, ◌==◌, if◌then◌else◌, length, inl, inr, Option-cases, arith,
}
use nexus_key.Action.{TypingAction}
use nexus_key.State.{CharState, no_mod, circumflex, horn, stroke, blank, at}
use nexus_key.Letters.{Ctype}
use nexus_key.Helpers.{find_stroke_d_target, undo_horn_u}
use nexus_key.Engine.Core.{
  Engine, EscapeKind, escape_circumflex, escape_horn, escape_stroke, last_raw, erase_consumed_raw,
}
use nexus_key.Engine.Edit.{drop_last}
use nexus_key.Engine.Modify.{
  Inserted, escape_kind, horn_insert_base, unstroke, handle_stroke_d, unmark, handle_undo_all_marks,
  insert_letter, inserted, handle_insert_char, handle_horn_insert,
}
use nexus_key.Engine.Speculate.{set_mod_at}
use nexus_key.Engine.Circumflex.{
  is_user_defined, action_to_vowel, adjacent_circumflex, free_mark_at, free_mark_from,
  handle_adjacent_circumflex,
}
use nexus_key.Engine.EditLaws.{length-drop_last}
use nexus_key.Engine.Growth.{
  Grows, Takes, Grows-trans, Grows-refl, Grows-states, Grows-escape, set_mod_at-Grows,
  relocate-Grows, escape_with-Grows, process_key-Grows, erase_consumed_raw-Grows,
  length-process_key, length-erase_consumed_raw,
}
use nexus_key.Engine.Lengths.{length-map, length-set_mod, length-snoc, length-undo_horn_u}

unstroke-Takes : (ct : Ctype) (key d : ℕ) (e : Engine) → Takes 1 e (unstroke ct key d e)
unfolding unstroke
unstroke-Takes ct key d e =
    let plain = set_mod_at e d no_mod in
    let undone =
      Grows-trans 0 1 e (record plain { escape = escape_stroke }) _
        (Grows-escape 0 e plain escape_stroke (set_mod_at-Grows e d no_mod))
        (process_key-Grows ct key (record plain { escape = escape_stroke })) in
    ground arith

pub handle_stroke_d-Takes :
    (ct : Ctype) (key : ℕ) (e : Engine) → Takes 1 e (handle_stroke_d ct key e)
unfolding handle_stroke_d
handle_stroke_d-Takes ct key e = elim (Option-cases (find_stroke_d_target e.states)) [
  | inl n ↦ ground arith
  | inr (d, g) ↦ ground (arith, length-set_mod e.states d stroke, unstroke-Takes ct key d e)
]

pub handle_undo_all_marks-Takes : (e : Engine) → Takes 1 e (handle_undo_all_marks e)
unfolding handle_undo_all_marks
handle_undo_all_marks-Takes e = ground (arith, length-map unmark e.states)

pub insert_letter-Grows :
    (ct : Ctype) (key : ℕ) (l : Inserted) (kind : EscapeKind) (e : Engine)
    → Grows 1 e (insert_letter ct key l kind e)
unfolding insert_letter
insert_letter-Grows ct key l kind e =
    let last = at e.states (length e.states - 1) in
    let popped : Engine = record e { states = drop_last e.states } in
    let erased = erase_consumed_raw-Grows last.raw_idx popped in
    let same = length-erase_consumed_raw last.raw_idx popped in
    let one = length-process_key ct key (erase_consumed_raw last.raw_idx popped) in
    let typed = process_key-Grows ct key (erase_consumed_raw last.raw_idx popped) in
    let s : CharState = record blank {
      base = l.base;
      mod_ = l.mod_;
      is_upper = l.upper;
      raw_idx = last_raw e;
    } in
    let longer = length-snoc e.states s in let shorter = length-drop_last e.states in ground arith

pub handle_insert_char-Takes :
    (ct : Ctype) (action : TypingAction) (key : ℕ) (e : Engine)
    → Takes 1 e (handle_insert_char ct action key e)
unfolding handle_insert_char
handle_insert_char-Takes ct action key e = elim (Option-cases (inserted action)) [
  | inl n ↦ ground arith
  | inr (l, g) ↦ ground (arith, insert_letter-Grows ct key l (escape_kind l.mod_) e)
]

pub handle_horn_insert-Takes :
    (ct : Ctype) (action : TypingAction) (key : ℕ) (e : Engine)
    → Takes 1 e (handle_horn_insert ct action key e)
unfolding handle_horn_insert
handle_horn_insert-Takes ct action key e = ground (
  arith,
  insert_letter-Grows ct key (record { base = horn_insert_base action; mod_ = horn; upper = false })
      escape_horn e,
)

adjacent_circumflex-Takes :
    (ct : Ctype) (key target : ℕ) (e : Engine) → Takes 1 e (adjacent_circumflex ct key target e)
unfolding adjacent_circumflex
adjacent_circumflex-Takes ct key target e =
    let i = length e.states - 1 in
    let plain = set_mod_at-Grows e i no_mod in
    let escaped =
      Grows-trans 0 1 e _ _ plain
        (escape_with-Grows ct key escape_circumflex (set_mod_at e i no_mod)) in
    let literal_key =
      Grows-trans 0 1 e _ _ plain (process_key-Grows ct key (set_mod_at e i no_mod)) in
    let marked = set_mod_at-Grows e i circumflex in
    let placed = Grows-trans 0 0 e _ _ marked (relocate-Grows ct (set_mod_at e i circumflex)) in
    ground arith

free_mark_at-Takes :
    (ct : Ctype) (key target : ℕ) (e : Engine) (i : ℕ) (crosses : Bool) (consonants coda : ℕ)
    → Takes 1 e (free_mark_at ct key target e i crosses consonants coda)
unfolding free_mark_at
free_mark_at-Takes ct key target e i crosses consonants coda =
    let plain = set_mod_at-Grows e i no_mod in
    let escaped =
      Grows-trans 0 1 e _ _ plain
        (escape_with-Grows ct key escape_circumflex (set_mod_at e i no_mod)) in
    let m : Engine = set_mod_at e i circumflex in
    let marked = set_mod_at-Grows e i circumflex in
    let placed = Grows-trans 0 0 e _ _ marked (relocate-Grows ct m) in
    let u : Engine = record m { states = undo_horn_u m.states i } in
    let unhorned =
      Grows-trans 0 0 e m u marked (Grows-states m _ (length-undo_horn_u m.states i)) in
    let unhorned_placed = Grows-trans 0 0 e u _ unhorned (relocate-Grows ct u) in ground arith

free_mark_from-Takes :
    (ct : Ctype) (key target : ℕ) (e : Engine) (i : ℕ) (crosses : Bool) (consonants coda : ℕ)
    → Takes 1 e (free_mark_from ct key target e i crosses consonants coda)
unfolding free_mark_from
free_mark_from-Takes ct key target e zero crosses consonants coda = Grows-refl e
free_mark_from-Takes ct key target e (suc i) crosses consonants coda =
    let s = at e.states i in
    let over_vowel = free_mark_from-Takes ct key target e i true consonants coda in
    let over_consonant =
      free_mark_from-Takes ct key target e i crosses (suc consonants)
        (if consonants == 0 then s.base else coda) in
    let here = free_mark_at-Takes ct key target e i crosses consonants coda in ground arith

pub handle_adjacent_circumflex-Takes :
    (ct : Ctype) (action : TypingAction) (key : ℕ) (e : Engine)
    → Takes 1 e (handle_adjacent_circumflex ct action key e)
unfolding handle_adjacent_circumflex
handle_adjacent_circumflex-Takes ct action key e =
    let n = length e.states in
    let target =
      if is_user_defined e.config.input_method then action_to_vowel action else ct.towlower key in
    let next_to = adjacent_circumflex-Takes ct key target e in
    let free = free_mark_from-Takes ct key target e n false 0 0 in ground arith
