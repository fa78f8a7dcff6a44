-- ===== src/Engine/Growth/Quicks.antt =====
-- The quick consonants.
use nexus_key.Base.{
  ℕ, ◌+◌, ◌-◌, ◌≤◌, ◌≡◌, ◌∙◌, refl, Bool, false, not, ◌&&◌, ◌||◌, ◌==◌, if◌then◌else◌, some, List,
  [], ◌∷◌, ◌++◌, length, inl, inr, Option-cases, arith,
}
use nexus_key.State.{CharState, horn, blank, at}
use nexus_key.Letters.{Ctype}
use nexus_key.Helpers.{set_mod}
use nexus_key.Engine.Core.{Engine, last_raw, process_key, update_spell_state}
use nexus_key.Engine.Relocate.{relocate_tone_to_target, apply_auto_uo}
use nexus_key.Engine.Modify.{finalize_regular_char, reverted}
use nexus_key.Engine.Quick.{
  quick_start_pair, expand_start, settle_start, quick_replacement, expand_consonant, expand_uu,
  settle_quick, expand_quick, continue_quick, handle_quick_start_consonant, quick_end_pair,
  handle_quick_end_consonant,
}
use nexus_key.Engine.Growth.{
  Grows, Takes, Grows-trans, Grows-refl, process_key-Grows, update_spell_state-Grows,
}
use nexus_key.Engine.Lengths.{length-snoc, length-relocate, length-auto_uo, length-set_mod}

-- From `e` to `f` the buffer grows by `k` states at most, and may shrink; the history of the keys and
-- the settings stay.
pub record Keeps (k : ℕ) (e f : Engine) : Type 0 where
  pub history : f.esc_raw_history ≡ e.esc_raw_history
  pub config : f.config ≡ e.config
  pub no_more : length f.states ≤ length e.states + k

pub Grows-Keeps : (k : ℕ) (e f : Engine) → Grows k e f → Keeps k e f
Grows-Keeps k e f g = record { history = g.history; config = g.config; no_more = g.no_more }

pub Keeps-trans : (j k : ℕ) (e f g : Engine) → Keeps j e f → Keeps k f g → Keeps (j + k) e g
Keeps-trans j k e f g p q = record {
  history = q.history ∙ p.history;
  config = q.config ∙ p.config;
  no_more = omega (arith, p.no_more, q.no_more);
}

length-reverted : (ss : List CharState) → length (reverted ss) ≡ length ss
length-reverted [] = refl
length-reverted (s ∷ ss) = refl

pub finalize_regular_char-Grows : (ct : Ctype) (e : Engine) → Grows 0 e (finalize_regular_char ct e)
unfolding finalize_regular_char
finalize_regular_char-Grows ct e =
    let modern = e.config.modern_ortho in
    let moved = relocate_tone_to_target ct modern e.states in
    let a = length-relocate ct modern e.states in
    let b = length-auto_uo ct modern moved in
    let placed : Engine = record e { states = apply_auto_uo ct modern moved } in
    let f = update_spell_state ct placed in
    let g = update_spell_state-Grows ct placed in let c = length-reverted f.states in ground arith

expand_start-Grows :
    (ct : Ctype) (key : ℕ) (upper : Bool) (p : ℕ × ℕ) (e : Engine)
    → Grows 2 e (expand_start ct key upper p e)
unfolding expand_start
expand_start-Grows ct key upper (first, second) e =
    let cased = if upper then ct.towupper first else first in
    let two =
      Grows-trans 1 1 e _ _ (process_key-Grows ct cased e) (process_key-Grows ct second _) in
    let marked : Engine = record (process_key ct second (process_key ct cased e)) {
      quick_start_key = key;
    } in
    let last = update_spell_state-Grows ct marked in ground arith

settle_start-Keeps : (ct : Ctype) (key : ℕ) (e : Engine) → Keeps 1 e (settle_start ct key e)
unfolding settle_start
settle_start-Keeps ct key e =
    let f : Engine = record e {
      quick_start_key = 0;
      states = [];
      raw_input = e.quick_start_key ∷ [];
    } in
    let g = process_key-Grows ct e.quick_start_key f in ground arith

settle_start-still :
    (ct : Ctype) (key : ℕ) (e : Engine) → e.quick_start_key ≡ 0 → settle_start ct key e ≡ e
unfolding settle_start
settle_start-still ct key e h = ground arith

settle_quick-Grows : (lower : ℕ) (e : Engine) → Grows 0 e (settle_quick lower e).1
unfolding settle_quick
settle_quick-Grows lower e = ground arith

expand_consonant-Grows :
    (ct : Ctype) (lower : ℕ) (upper : Bool) (r : ℕ) (e : Engine)
    → Grows 1 e (expand_consonant ct lower upper r e)
unfolding expand_consonant
expand_consonant-Grows ct lower upper r e =
    let n = length e.states in
    let marked : Engine = record e {
      qc = record (e.qc) {
        result_index = some n;
        last_key = lower;
        only_qc = n == 1 || e.qc.only_qc;
      };
    } in
    let cased = if upper then ct.towupper r else r in
    let g =
      Grows-trans 1 0 marked _ _ (process_key-Grows ct cased marked)
        (finalize_regular_char-Grows ct _) in
    ground arith

expand_uu-Grows :
    (ct : Ctype) (lower : ℕ) (upper : Bool) (e : Engine) → Grows 1 e (expand_uu ct lower upper e)
unfolding expand_uu
expand_uu-Grows ct lower upper e =
    let n = length e.states in
    let s : CharState = record blank {
      base = b'o';
      mod_ = horn;
      is_upper = upper;
      raw_idx = last_raw e;
    } in
    let marked : Engine = record e {
      states = set_mod e.states (n - 1) horn ++ s ∷ [];
      qc = record (e.qc) {
        result_index = some n;
        last_key = lower;
        only_qc = n == 1 || e.qc.only_qc;
      };
    } in
    let a = length-snoc (set_mod e.states (n - 1) horn) s in
    let b = length-set_mod e.states (n - 1) horn in
    let g = update_spell_state-Grows ct marked in ground arith

expand_quick-Takes :
    (ct : Ctype) (lower : ℕ) (upper : Bool) (e : Engine) → Takes 1 e (expand_quick ct lower upper e)
unfolding expand_quick
expand_quick-Takes ct lower upper e =
    let still = Grows-refl e in
    let uu = expand_uu-Grows ct lower upper e in
    elim (Option-cases (quick_replacement (at e.states (length e.states - 1)).base lower)) [
      | inl n ↦ ground arith
      | inr (r, h) ↦ (let g = expand_consonant-Grows ct lower upper r e in ground arith)
    ]

-- What continues after the quick start key is settled.
continued-Takes :
    (ct : Ctype) (lower : ℕ) (upper : Bool) (e : Engine)
    → Takes 1 e (
        let (off, f) = settle_quick lower e in
        if f.config.quick_consonant && not (length f.states == 0) && not off
        then expand_quick ct lower upper f
        else (false, f))
continued-Takes ct lower upper e =
    let f : Engine = (settle_quick lower e).1 in
    let g = settle_quick-Grows lower e in
    let h = expand_quick-Takes ct lower upper f in ground arith

-- The quick start key may be settled, and the key then consumed.
abbrev pub Settles : Engine → Bool × Engine → Type 0
Settles e r = Keeps (if r.0 then 2 else 1) e r.1

continue_quick-Settles :
    (ct : Ctype) (key lower : ℕ) (upper : Bool) (e : Engine)
    → Settles e (continue_quick ct key lower upper e)
unfolding continue_quick
continue_quick-Settles ct key lower upper e =
    let f : Engine = settle_start ct key e in
    let settled = settle_start-Keeps ct key e in
    let g = continued-Takes ct lower upper f in ground arith

continue_quick-Takes :
    (ct : Ctype) (key lower : ℕ) (upper : Bool) (e : Engine)
    → e.quick_start_key ≡ 0
    → Takes 1 e (continue_quick ct key lower upper e)
unfolding continue_quick
continue_quick-Takes ct key lower upper e h =
    let same = settle_start-still ct key e h in
    let g = continued-Takes ct lower upper e in rw same g

pub handle_quick_start_consonant-Settles :
    (ct : Ctype) (key lower : ℕ) (upper : Bool) (e : Engine)
    → Settles e (handle_quick_start_consonant ct key lower upper e)
unfolding handle_quick_start_consonant
handle_quick_start_consonant-Settles ct key lower upper e =
    let c = continue_quick-Settles ct key lower upper e in
    elim (Option-cases (quick_start_pair lower)) [
      | inl n ↦ ground arith
      | inr (p, h) ↦
          (let g = Grows-Keeps 2 e _ (expand_start-Grows ct key upper p e) in ground arith)
    ]

pub handle_quick_start_consonant-Takes :
    (ct : Ctype) (key lower : ℕ) (upper : Bool) (e : Engine)
    → e.quick_start_key ≡ 0
    → Takes 2 e (handle_quick_start_consonant ct key lower upper e)
unfolding handle_quick_start_consonant
handle_quick_start_consonant-Takes ct key lower upper e z =
    let c = continue_quick-Takes ct key lower upper e z in
    elim (Option-cases (quick_start_pair lower)) [
      | inl n ↦ ground arith
      | inr (p, h) ↦ (let g = expand_start-Grows ct key upper p e in ground arith)
    ]

pub handle_quick_end_consonant-Takes :
    (ct : Ctype) (lower : ℕ) (e : Engine) → Takes 2 e (handle_quick_end_consonant ct lower e)
unfolding handle_quick_end_consonant
handle_quick_end_consonant-Takes ct lower e = elim (Option-cases (quick_end_pair lower)) [
  | inl n ↦ (let still = Grows-refl e in ground arith)
  | inr ((a, b), h) ↦
      (let two = Grows-trans 1 1 e _ _ (process_key-Grows ct a e) (process_key-Grows ct b _) in
        let last = update_spell_state-Grows ct (process_key ct b (process_key ct a e)) in
        ground arith)
]
