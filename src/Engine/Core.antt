-- ===== src/Engine/Core.antt =====
-- The fields of the engine, `Reset`, `ProcessChar`, `EraseConsumedRaw`, `UpdateSpellState` and
-- `ComposeAll`. A size or an index of `SIZE_MAX` is `none`.
use nexus_key.Base.{
  ℕ, zero, suc, ◌-◌, Bool, true, false, ◌==◌, ltb, leb, if◌then◌else◌, Option, none, some, List, [],
  ◌∷◌, ◌++◌, map, Wstring, length,
}
use nexus_key.State.{CharState, blank}
use nexus_key.Letters.{Ctype, compose}
use nexus_key.Config.{TypingConfig, is_telex_mode}
use nexus_key.English.{EnglishProtectionState, unprotected}
use nexus_key.Helpers.{update_spell_check, recalc_english_bias, check_zwjf_initial_bias}

pub data EscapeKind : Type 0 where
  not_escaped escape_tone escape_circumflex escape_horn escape_breve escape_stroke : EscapeKind
  escape_modifier : EscapeKind

-- `EscapeState::isEscaped`.
abbrev pub is_escaped : EscapeKind → Bool
is_escaped not_escaped = false
is_escaped _ = true

pub record QuickConsonantState : Type 0 where
  pub result_index : Option ℕ
  pub last_key : ℕ
  pub only_qc : Bool
  pub escaped : Bool

-- `QuickConsonantState::Reset`.
abbrev pub no_quick : QuickConsonantState
no_quick = record { result_index = none; last_key = 0; only_qc = false; escaped = false }

abbrev pub clear_active : QuickConsonantState → QuickConsonantState
clear_active q = record q { result_index = none; last_key = 0 }

abbrev pub mark_escaped : QuickConsonantState → QuickConsonantState
mark_escaped q = record q { escaped = true; result_index = none; last_key = 0 }

abbrev pub has_active : QuickConsonantState → Bool
has_active q = elim q.result_index [ none ↦ false | some i ↦ true ]

pub record Engine : Type 0 where
  pub states : List CharState
  pub raw_input : List ℕ
  pub esc_raw_history : List ℕ
  pub config : TypingConfig
  pub spell_check_disabled : Bool
  pub qc : QuickConsonantState
  pub escape : EscapeKind
  pub quick_start_key : ℕ
  pub eng_prot : EnglishProtectionState

unfoldable pub reset : Engine → Engine
reset e = record e {
  states = [];
  raw_input = [];
  esc_raw_history = [];
  spell_check_disabled = false;
  qc = no_quick;
  escape = not_escaped;
  quick_start_key = 0;
  eng_prot = unprotected;
}

-- `rawInput_.empty() ? 0 : rawInput_.size() - 1`.
abbrev pub last_raw : Engine → ℕ
last_raw e = length e.raw_input - 1

-- `ProcessChar(c, lower, isUpper)`.
unfoldable pub process_char : ℕ → Bool → Engine → Engine
process_char lower upper e = record e {
  states = e.states ++ record blank { base = lower; is_upper = upper; raw_idx = last_raw e } ∷ [];
}

-- `ProcessChar(c)`.
unfoldable pub process_key : Ctype → ℕ → Engine → Engine
process_key ct key e = process_char (ct.towlower key) (ct.iswupper key) e

-- `rawInput_.erase(begin + idx)`.
unfoldable pub erase_at : ℕ → List ℕ → List ℕ
erase_at i [] = []
erase_at zero (c ∷ cs) = cs
erase_at (suc i) (c ∷ cs) = c ∷ erase_at i cs

-- An index after the erased entry moves down by one.
unfoldable pub shift : ℕ → ℕ → ℕ
shift idx i = if ltb idx i then i - 1 else i

unfoldable pub shift_state : ℕ → CharState → CharState
shift_state idx s = record s {
  raw_idx = shift idx s.raw_idx;
  tone_raw_idx = elim s.tone_raw_idx [ none ↦ none | some t ↦ some (shift idx t) ];
}

unfoldable pub erase_consumed_raw : ℕ → Engine → Engine
erase_consumed_raw idx e =
    if leb (length e.raw_input) idx
    then e
    else record e { raw_input = erase_at idx e.raw_input; states = map (shift_state idx) e.states }

unfoldable pub update_spell_state : Ctype → Engine → Engine
update_spell_state ct e = record e {
  spell_check_disabled = update_spell_check ct e.config e.states;
}

unfoldable pub compose_all : Ctype → List CharState → Wstring
compose_all ct [] = []
compose_all ct (s ∷ states) =
    let rest = compose_all ct states in if compose ct s == 0 then rest else compose ct s ∷ rest

-- `Peek`.
unfoldable pub peek : Ctype → Engine → Wstring
peek ct e = compose_all ct e.states

-- `RecalcEnglishBias`, and in a Telex mode `CheckZwjfInitialBias`.
unfoldable pub recheck_bias : Ctype → Engine → Engine
recheck_bias ct e =
    let p = recalc_english_bias ct e.states in
    record e {
      eng_prot =
          if is_telex_mode e.config.input_method
          then check_zwjf_initial_bias e.config e.states p
          else p;
    }
