-- ===== src/Tests/Fixtures.antt =====
-- Test data: the case mapping of the C locale with the letters of Vietnamese, states and engines.
use nexus_key.Base.{ℕ, ◌+◌, ◌-◌, refl, true, false, ◌==◌, if◌then◌else◌, some, List, [], ◌∷◌, arith}
use nexus_key.Action.{literal}
use nexus_key.State.{CharState, circumflex, acute, blank}
use nexus_key.Letters.{Ctype, FollowsUnicode, between}
use nexus_key.Config.{TypingConfig, telex}
use nexus_key.English.{unprotected}
use nexus_key.Engine.Core.{Engine, no_quick, not_escaped}

abbrev pub lower_of : ℕ → ℕ
lower_of c =
    if between b'A' b'Z' c
    then c + 0x20
    else if c == 0x128
    then 0x129
    else if c == 0x168
    then 0x169
    else c

abbrev pub upper_of : ℕ → ℕ
upper_of c = if between b'a' b'z' c then c - 0x20 else c

abbrev pub locale : Ctype
locale = record { towlower = lower_of; towupper = upper_of; iswupper = between b'A' b'Z' }

pub locale-FollowsUnicode : FollowsUnicode locale
locale-FollowsUnicode = record {
  lower_ascii = λ c h k. ground arith;
  upper_ascii = λ c h k. ground arith;
  lower_fixed = λ c h. ground arith;
  lower_i_tilde = refl;
  lower_u_tilde = refl;
}

-- A letter typed with the key at an index.
abbrev pub letter_at : ℕ → ℕ → CharState
letter_at c i = record blank { base = c; raw_idx = i }

-- The word tiến: t i ê n, with an acute tone on the ê, typed "tieens".
abbrev pub tien : List CharState
tien =
    letter_at b't' 0
    ∷ letter_at b'i' 1
    ∷ record (letter_at b'e' 2) { mod_ = circumflex; tone = acute; tone_raw_idx = some 5 }
    ∷ letter_at b'n' 4
    ∷ []

-- The letters of "an", the first with the tone of the key at index 2.
abbrev pub an : List CharState
an = record (letter_at b'a' 0) { tone = acute; tone_raw_idx = some 2 } ∷ letter_at b'n' 1 ∷ []

abbrev pub settings : TypingConfig
settings = record {
  input_method = telex;
  spell_check_enabled = true;
  modern_ortho = false;
  allow_zwjf = false;
  auto_restore_enabled = true;
  quick_consonant = false;
  quick_start_consonant = false;
  quick_end_consonant = false;
  allow_english_bypass = false;
  spell_exclusions = [];
  custom_key_map = λ k. literal;
}

abbrev pub fresh : Engine
fresh = record {
  states = [];
  raw_input = [];
  esc_raw_history = [];
  config = settings;
  spell_check_disabled = false;
  qc = no_quick;
  escape = not_escaped;
  quick_start_key = 0;
  eng_prot = unprotected;
}

-- The engine after the keys "ans".
abbrev pub typed_ans : Engine
typed_ans = record fresh { states = an; raw_input = b'a' ∷ b'n' ∷ b's' ∷ [] }

-- The engine after the keys "tieens".
abbrev pub typed_tieens : Engine
typed_tieens = record fresh {
  states = tien;
  raw_input = b't' ∷ b'i' ∷ b'e' ∷ b'e' ∷ b'n' ∷ b's' ∷ [];
}
