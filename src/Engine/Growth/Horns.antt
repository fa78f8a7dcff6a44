-- ===== src/Engine/Growth/Horns.antt =====
-- The horn and the breve: `HandleHornW`.
use nexus_key.Base.{ℕ, suc, true, if◌then◌else◌, Option, none, some, inl, inr, Option-cases, arith}
use nexus_key.State.{CharState, Modifier, no_mod, horn, breve, blank, at}
use nexus_key.Letters.{Ctype}
use nexus_key.Helpers.{undo_horn_u}
use nexus_key.Engine.Core.{Engine, EscapeKind, escape_horn, escape_breve, last_raw}
use nexus_key.Engine.Edit.{drop_last}
use nexus_key.Engine.EditLaws.{length-drop_last}
use nexus_key.Engine.Speculate.{set_mod_at}
use nexus_key.Engine.Circumflex.{escape_with}
use nexus_key.Engine.Horn.{
  clear_sister, horn_ua, horn_pair, horn_uo, breve_oa, unhorn, escape_marked, horn_u, horn_o,
  breve_a, insert_horned_u, attempts_w, handle_horn_w,
}
use nexus_key.Engine.HornScan.{Found, done, relocate_horn, analyse}
use nexus_key.Engine.Growth.{
  Grows, Takes, AttemptTakes, Grows-trans, Grows-refl, Grows-weaken, Grows-states, set_mod_at-Grows,
  escape_with-Grows, <|>-Takes, or_unhandled-Takes, process_key-Grows, length-process_key,
}
use nexus_key.Engine.Lengths.{length-relocate_horn, length-snoc, length-undo_horn_u}

relocate_horn-Grows : (e : Engine) → Grows 0 e (relocate_horn e)
relocate_horn-Grows e = Grows-states e _ (length-relocate_horn e.states)

horned-Grows : (e f : Engine) → Grows 0 e f → Grows 0 e (relocate_horn f)
horned-Grows e f g = Grows-trans 0 0 e f _ g (relocate_horn-Grows f)

clear_sister-Grows : (o : Option ℕ) (e : Engine) → Grows 0 e (clear_sister o e)
unfolding clear_sister
clear_sister-Grows none e = Grows-refl e
clear_sister-Grows (some a) e = let cleared = set_mod_at-Grows e a no_mod in ground arith

-- A modifier is set, and the circumflex of the other vowel goes.
sister-Grows :
    (o : Option ℕ) (i : ℕ) (m : Modifier) (e : Engine)
    → Grows 0 e (clear_sister o (set_mod_at e i m))
sister-Grows o i m e =
    Grows-trans 0 0 e _ _ (set_mod_at-Grows e i m) (clear_sister-Grows o (set_mod_at e i m))

done-Takes : (k : ℕ) (e f : Engine) → Grows k e f → AttemptTakes k e (done f)
done-Takes k e f g = g

pub more : (e f : Engine) → Grows 0 e f → Grows 1 e f
more e f g = Grows-weaken 0 1 e f (omega arith) g

-- A key that is left out of the buffer.
Takes-silent : (e f : Engine) → Grows 0 e f → AttemptTakes 1 e (done f)
Takes-silent e f g = more e f g

pub escaped-Grows :
    (ct : Ctype) (key : ℕ) (kind : EscapeKind) (e f : Engine)
    → Grows 0 e f
    → Grows 1 e (escape_with ct key kind f)
escaped-Grows ct key kind e f g = Grows-trans 0 1 e f _ g (escape_with-Grows ct key kind f)

horn_ua-Takes : (f : Found) (e : Engine) → AttemptTakes 1 e (horn_ua f e)
unfolding horn_ua
horn_ua-Takes f e = elim (Option-cases f.u) [
  | inl n ↦ ground arith
  | inr (u, h) ↦ (let g = more e _ (horned-Grows e _ (sister-Grows f.a u horn e)) in ground arith)
]

pub both-Grows :
    (e : Engine) (i j : ℕ) (m : Modifier) → Grows 0 e (set_mod_at (set_mod_at e i m) j m)
both-Grows e i j m =
    Grows-trans 0 0 e _ _ (set_mod_at-Grows e i m) (set_mod_at-Grows (set_mod_at e i m) j m)

horn_pair-Takes : (ct : Ctype) (key u : ℕ) (e : Engine) → AttemptTakes 1 e (horn_pair ct key u e)
unfolding horn_pair
horn_pair-Takes ct key u e =
    let o = suc u in
    let o_horned = more e _ (horned-Grows e _ (set_mod_at-Grows e o horn)) in
    let u_horned = more e _ (horned-Grows e _ (set_mod_at-Grows e u horn)) in
    let both_horned = more e _ (horned-Grows e _ (both-Grows e u o horn)) in
    let both_plain = escaped-Grows ct key escape_horn e _ (both-Grows e u o no_mod) in
    let o_plain = escaped-Grows ct key escape_horn e _ (set_mod_at-Grows e o no_mod) in ground arith

horn_uo-Takes :
    (ct : Ctype) (key : ℕ) (f : Found) (e : Engine) → AttemptTakes 1 e (horn_uo ct key f e)
unfolding horn_uo
horn_uo-Takes ct key f e = elim (Option-cases f.pair_u) [
  | inl n ↦ ground arith
  | inr (u, h) ↦ (let g = horn_pair-Takes ct key u e in ground arith)
]

breve_oa-Takes : (f : Found) (e : Engine) → AttemptTakes 1 e (breve_oa f e)
unfolding breve_oa
breve_oa-Takes f e = elim (Option-cases f.a) [
  | inl n ↦ ground arith
  | inr (a, h) ↦ (let g = more e _ (set_mod_at-Grows e a breve) in ground arith)
]

dropped-Grows :
    (ct : Ctype) (key : ℕ) (kind : EscapeKind) (e : Engine)
    → Grows 1 e (escape_with ct key kind (record e { states = drop_last e.states }))
dropped-Grows ct key kind e =
    let popped : Engine = record e { states = drop_last e.states } in
    let shorter = length-drop_last e.states in
    let one = length-process_key ct key popped in
    let typed = process_key-Grows ct key popped in ground arith

pub undone-Grows :
    (e : Engine) (i : ℕ) (m : Modifier)
    → Grows 0 e (set_mod_at (record e { states = undo_horn_u e.states i }) i m)
undone-Grows e i m =
    Grows-trans 0 0 e _ _ (Grows-states e _ (length-undo_horn_u e.states i))
      (set_mod_at-Grows _ i m)

unhorn-Grows : (ct : Ctype) (key h : ℕ) (e : Engine) → Grows 1 e (unhorn ct key h e)
unfolding unhorn
unhorn-Grows ct key h e =
    let cased = if (at e.states h).is_upper then ct.towupper key else ct.towlower key in
    let dropped = dropped-Grows ct cased escape_horn e in
    let plain = escaped-Grows ct key escape_horn e _ (undone-Grows e h no_mod) in ground arith

escape_marked-Takes :
    (ct : Ctype) (key : ℕ) (f : Found) (e : Engine) → AttemptTakes 1 e (escape_marked ct key f e)
unfolding escape_marked
escape_marked-Takes ct key f e = elim (Option-cases f.horned) [
  | inr (h, g) ↦ (let u = unhorn-Grows ct key h e in ground arith)
  | inl n ↦ elim (Option-cases f.breved) [
    | inl m ↦ ground arith
    | inr (a, g) ↦
        (let u = escaped-Grows ct key escape_breve e _ (set_mod_at-Grows e a no_mod) in
          ground arith)
  ]
]

horn_u-Takes : (ct : Ctype) (f : Found) (e : Engine) → AttemptTakes 1 e (horn_u ct f e)
unfolding horn_u
horn_u-Takes ct f e = elim (Option-cases f.u) [
  | inl n ↦ ground arith
  | inr (u, h) ↦
      (let first : ℕ = elim f.first_u [ none ↦ u | some i ↦ i ] in
        let target = if f.uu then first else u in
        let g = more e _ (horned-Grows e _ (sister-Grows f.a target horn e)) in
        let still = Grows-refl e in ground arith)
]

horn_o-Takes : (ct : Ctype) (f : Found) (e : Engine) → AttemptTakes 1 e (horn_o ct f e)
unfolding horn_o
horn_o-Takes ct f e = elim (Option-cases f.o) [
  | inl n ↦ ground arith
  | inr (o, h) ↦
      (let g = more e _ (horned-Grows e _ (set_mod_at-Grows e o horn)) in
        let still = Grows-refl e in ground arith)
]

breve_a-Takes : (ct : Ctype) (f : Found) (e : Engine) → AttemptTakes 1 e (breve_a ct f e)
unfolding breve_a
breve_a-Takes ct f e = elim (Option-cases f.a) [
  | inl n ↦ ground arith
  | inr (a, h) ↦
      (let g = more e _ (set_mod_at-Grows e a breve) in let still = Grows-refl e in ground arith)
]

insert_horned_u-Takes :
    (ct : Ctype) (key : ℕ) (e : Engine) → AttemptTakes 1 e (insert_horned_u ct key e)
unfolding insert_horned_u
insert_horned_u-Takes ct key e =
    let s : CharState = record blank {
      base = b'u';
      mod_ = horn;
      is_upper = ct.iswupper key;
      synthetic = true;
      raw_idx = last_raw e;
    } in
    let longer = length-snoc e.states s in ground arith

attempts_w-Takes :
    (ct : Ctype) (key : ℕ) (f : Found) (e : Engine) → AttemptTakes 1 e (attempts_w ct key f e)
unfolding attempts_w
attempts_w-Takes ct key f e = <|>-Takes 1 e _ _ (horn_ua-Takes f e) (
    <|>-Takes 1 e _ _ (horn_uo-Takes ct key f e) (
      <|>-Takes 1 e _ _ (breve_oa-Takes f e) (
        <|>-Takes 1 e _ _ (escape_marked-Takes ct key f e) (
          <|>-Takes 1 e _ _ (horn_u-Takes ct f e) (
            <|>-Takes 1 e _ _ (horn_o-Takes ct f e)
              (<|>-Takes 1 e _ _ (breve_a-Takes ct f e) (insert_horned_u-Takes ct key e)))))))

pub handle_horn_w-Takes : (ct : Ctype) (key : ℕ) (e : Engine) → Takes 1 e (handle_horn_w ct key e)
unfolding handle_horn_w
handle_horn_w-Takes ct key e =
    let tried = or_unhandled-Takes 1 e _ (attempts_w-Takes ct key (analyse e.states) e) in
    let still = Grows-refl e in ground arith
