-- ===== src/Engine/Growth.antt =====
-- How the handlers change the size of the buffer, and that they leave the history of the keys and the
-- settings alone.
use nexus_key.Base.{
  ℕ, zero, suc, ◌+◌, ◌-◌, ◌≤◌, ◌≡◌, ◌∙◌, sym, refl, ap, Bool, List, [], ◌∷◌, ◌++◌, ◌&&◌, true,
  false, if◌then◌else◌, length, map, set, inl, inr, Option-cases, arith, Option, none, some, ◌<|>◌,
}
use nexus_key.Scan.{find_last}
use nexus_key.State.{CharState, Modifier, no_mod, no_tone, is_vowel, is_horn, has_tone, at}
use nexus_key.Letters.{Ctype}
use nexus_key.Helpers.{set_mod, undo_horn_u}
use nexus_key.Engine.Core.{
  Engine, EscapeKind, process_char, process_key, shift_state, erase_consumed_raw,
  update_spell_state, recheck_bias,
}
use nexus_key.English.{EnglishProtectionState}
use nexus_key.Engine.Edit.{drop_last}
use nexus_key.Engine.Relocate.{relocate_tone_to_horn_vowel, relocate_tone_to_target, apply_auto_uo}
use nexus_key.Engine.Letterwise.{letters, relocate_tone_to_target-keeps, apply_auto_uo-letters}
use nexus_key.Engine.Speculate.{relocate, set_mod_at}
use nexus_key.Engine.Horn.{or_unhandled}
use nexus_key.Engine.HornScan.{Attempt}
use nexus_key.Engine.Circumflex.{escape_with}
use nexus_key.Engine.Lengths.{
  length-map, length-set, length-snoc, length-letters, length-relocate, length-auto_uo,
  length-relocate_horn, length-set_mod, length-undo_horn_u,
}
pub mod Tones
pub mod Marks
pub mod Horns
pub mod Vnis
pub mod Keys
pub mod Quicks
pub mod Dispatch
pub mod Typing

-- From `e` to `f` the buffer does not shrink and grows by `k` states at most; the history of the keys
-- and the settings stay.
pub record Grows (k : ℕ) (e f : Engine) : Type 0 where
  pub history : f.esc_raw_history ≡ e.esc_raw_history
  pub config : f.config ≡ e.config
  pub no_less : length e.states ≤ length f.states
  pub no_more : length f.states ≤ length e.states + k

pub process_key-Grows : (ct : Ctype) (key : ℕ) (e : Engine) → Grows 1 e (process_key ct key e)
unfolding process_key process_char
process_key-Grows ct key e = grind (arith, length-snoc)

pub length-process_key :
    (ct : Ctype) (key : ℕ) (e : Engine)
    → length (process_key ct key e).states ≡ suc (length e.states)
unfolding process_key process_char
length-process_key ct key e = length-snoc e.states _

pub length-erase_consumed_raw :
    (idx : ℕ) (e : Engine) → length (erase_consumed_raw idx e).states ≡ length e.states
unfolding erase_consumed_raw
length-erase_consumed_raw idx e = grind (arith, length-map (shift_state idx) e.states)

pub Grows-trans : (j k : ℕ) (e f g : Engine) → Grows j e f → Grows k f g → Grows (j + k) e g
Grows-trans j k e f g p q = record {
  history = q.history ∙ p.history;
  config = q.config ∙ p.config;
  no_less = omega (arith, p.no_less, q.no_less);
  no_more = omega (arith, p.no_more, q.no_more);
}

-- A step that leaves the size, and then one that may not.
pub Grows-after : (k : ℕ) (e f g : Engine) → Grows 0 e f → Grows k f g → Grows k e g
Grows-after k e f g p q = record {
  history = q.history ∙ p.history;
  config = q.config ∙ p.config;
  no_less = omega (arith, p.no_less, q.no_less);
  no_more = omega (arith, p.no_more, q.no_more);
}

pub Grows-same :
    (e f : Engine)
    → f.esc_raw_history ≡ e.esc_raw_history
    → f.config ≡ e.config
    → length f.states ≡ length e.states
    → Grows 0 e f
Grows-same e f h c l = ground arith

pub update_spell_state-Grows : (ct : Ctype) (e : Engine) → Grows 0 e (update_spell_state ct e)
unfolding update_spell_state
update_spell_state-Grows ct e = ground arith

pub recheck_bias-Grows : (ct : Ctype) (e : Engine) → Grows 0 e (recheck_bias ct e)
unfolding recheck_bias
recheck_bias-Grows ct e = ground arith

pub erase_consumed_raw-Grows : (idx : ℕ) (e : Engine) → Grows 0 e (erase_consumed_raw idx e)
unfolding erase_consumed_raw
erase_consumed_raw-Grows idx e = ground (arith, length-map (shift_state idx) e.states)

pub relocate-Grows : (ct : Ctype) (e : Engine) → Grows 0 e (relocate ct e)
relocate-Grows ct e = ground (arith, length-relocate ct e.config.modern_ortho e.states)

pub Grows-weaken : (j k : ℕ) (e f : Engine) → j ≤ k → Grows j e f → Grows k e f
Grows-weaken j k e f h g = record {
  history = g.history;
  config = g.config;
  no_less = g.no_less;
  no_more = omega (arith, g.no_more);
}

pub Grows-refl : (e : Engine) → Grows 0 e e
Grows-refl e = ground arith

-- A key is refused: nothing changes.
pub Grows-still : (k : ℕ) (e : Engine) → Grows k e e
Grows-still k e = Grows-weaken 0 k e e (omega arith) (Grows-refl e)

pub Grows-escape :
    (k : ℕ) (e f : Engine) (kind : EscapeKind)
    → Grows k e f
    → Grows k e (record f { escape = kind })
Grows-escape k e f kind g = record {
  history = g.history;
  config = g.config;
  no_less = g.no_less;
  no_more = g.no_more;
}

pub Grows-bias :
    (k : ℕ) (e f : Engine) (p : EnglishProtectionState)
    → Grows k e f
    → Grows k e (record f { eng_prot = p })
Grows-bias k e f p g = record {
  history = g.history;
  config = g.config;
  no_less = g.no_less;
  no_more = g.no_more;
}

pub Grows-states :
    (e : Engine) (ss : List CharState)
    → length ss ≡ length e.states
    → Grows 0 e (record e { states = ss })
Grows-states e ss h = ground arith

pub Grows-if :
    (k : ℕ) (e : Engine) (b : Bool) (x y : Bool × Engine)
    → Grows k e x.1
    → Grows k e y.1
    → Grows k e (if b then x else y).1
Grows-if k e true x y p q = p
Grows-if k e false x y p q = q

pub Grows-choose :
    (k : ℕ) (e : Engine) (b : Bool) (x y : Engine)
    → Grows k e x
    → Grows k e y
    → Grows k e (if b then x else y)
Grows-choose k e true x y p q = p
Grows-choose k e false x y p q = q

pub escape_with-Grows :
    (ct : Ctype) (key : ℕ) (kind : EscapeKind) (e : Engine) → Grows 1 e (escape_with ct key kind e)
escape_with-Grows ct key kind e = Grows-escape 1 e _ kind (process_key-Grows ct key e)

-- A handler that consumes the key adds `k` letters at most; one that does not adds none.
abbrev pub Takes : ℕ → Engine → Bool × Engine → Type 0
Takes k e r = Grows (if r.0 then k else 0) e r.1

-- A handler that may leave the key to the next one.
abbrev pub AttemptTakes : ℕ → Engine → Attempt → Type 0
AttemptTakes k e none = Unit
AttemptTakes k e (some r) = Takes k e r

pub <|>-Takes :
    (k : ℕ) (e : Engine) (a b : Attempt)
    → AttemptTakes k e a
    → AttemptTakes k e b
    → AttemptTakes k e (a <|> b)
<|>-Takes k e none b p q = q
<|>-Takes k e (some r) b p q = p

pub or_unhandled-Takes :
    (k : ℕ) (e : Engine) (a : Attempt) → AttemptTakes k e a → Takes k e (or_unhandled a e)
or_unhandled-Takes k e none p = Grows-refl e
or_unhandled-Takes k e (some r) p = p

pub set_mod_at-Grows : (e : Engine) (i : ℕ) (m : Modifier) → Grows 0 e (set_mod_at e i m)
set_mod_at-Grows e i m = Grows-states e _ (length-set_mod e.states i m)
