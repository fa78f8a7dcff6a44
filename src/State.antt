-- ===== src/State.antt =====
-- The state of one typed character: `Modifier`, `Tone` and `CharState` of
-- src/core/engine/TypingEngine.h. An index of `SIZE_MAX` is `none`.
use nexus_key.Base.{ℕ, zero, suc, List, [], ◌∷◌, Bool, false, ◌||◌, ◌==◌, not, Option, none}

pub data Modifier : Type 0 where
  no_mod circumflex breve horn stroke : Modifier

pub data Tone : Type 0 where
  no_tone acute grave hook tilde dot : Tone

-- The underlying value of the enumeration, by which modifiers are compared.
abbrev pub mod_value : Modifier → ℕ
mod_value no_mod = 0
mod_value circumflex = 1
mod_value breve = 2
mod_value horn = 3
mod_value stroke = 4

abbrev pub tone_value : Tone → ℕ
tone_value no_tone = 0
tone_value acute = 1
tone_value grave = 2
tone_value hook = 3
tone_value tilde = 4
tone_value dot = 5

abbrev pub mod_eq : Modifier → Modifier → Bool
mod_eq m n = mod_value m == mod_value n

abbrev pub tone_eq : Tone → Tone → Bool
tone_eq t u = tone_value t == tone_value u

pub record CharState : Type 0 where
  pub base : ℕ
  pub mod_ : Modifier
  pub tone : Tone
  pub is_upper : Bool
  pub synthetic : Bool
  pub raw_idx : ℕ
  pub tone_raw_idx : Option ℕ

-- `base == L'a' || base == L'e' || ...`.
unfoldable pub is_vowel_base : ℕ → Bool
is_vowel_base c = c == b'a' || c == b'e' || c == b'i' || c == b'o' || c == b'u' || c == b'y'

unfoldable pub is_vowel : CharState → Bool
unfolding is_vowel_base
is_vowel s = is_vowel_base s.base

unfoldable pub is_d : CharState → Bool
is_d s = s.base == b'd'

unfoldable pub is_horn : CharState → Bool
is_horn s = mod_eq s.mod_ horn

unfoldable pub has_modifier : CharState → Bool
has_modifier s = not (mod_eq s.mod_ no_mod)

unfoldable pub has_tone : CharState → Bool
has_tone s = not (tone_eq s.tone no_tone)

unfoldable pub is_empty : CharState → Bool
is_empty s = s.base == 0

-- A default-initialised `CharState`.
abbrev pub blank : CharState
blank = record {
  base = 0;
  mod_ = no_mod;
  tone = no_tone;
  is_upper = false;
  synthetic = false;
  raw_idx = 0;
  tone_raw_idx = none;
}

-- `states[i]`, which the code reads within the buffer only.
unfoldable pub at : List CharState → ℕ → CharState
at [] i = blank
at (s ∷ states) zero = s
at (s ∷ states) (suc i) = at states i

abbrev pub base_at : List CharState → ℕ → ℕ
base_at states i = (at states i).base

abbrev pub is_vowel_at : List CharState → ℕ → Bool
is_vowel_at states i = is_vowel (at states i)
