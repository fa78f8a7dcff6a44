-- ===== src/Helpers/Exclusion.antt =====
-- Spell exclusions: prefixes of words that the user exempts from the spell check. The fixed buffer
-- of 16 code units is a list of at most 16.
use nexus_key.Base.{
  ℕ, zero, suc, Bool, true, false, not, ◌&&◌, ◌||◌, ◌==◌, ltb, leb, if◌then◌else◌, List, [], ◌∷◌,
  Wstring, length, min, any,
}
use nexus_key.State.{CharState, Modifier, mod_eq, no_mod, is_vowel, at}
use nexus_key.Letters.{Ctype, compose, strip_tone}
use nexus_key.Config.{TypingConfig}
use nexus_key.Validator.{is_invalid, validate_syllable_state}

abbrev pub max_buf : ℕ
max_buf = 16

-- The composed states in lower case, up to `room` of them; a state that composes to 0 is skipped.
unfoldable pub exclusion_buf : Ctype → ℕ → List CharState → Wstring
exclusion_buf ct zero states = []
exclusion_buf ct (suc room) [] = []
exclusion_buf ct (suc room) (s ∷ states) =
    let skip = exclusion_buf ct (suc room) states in
    let keep = ct.towlower (compose ct s) ∷ exclusion_buf ct room states in
    if compose ct s == 0 then skip else keep

-- The pattern is a prefix of the buffer.
unfoldable pub is_prefix : Wstring → Wstring → Bool
is_prefix [] buf = true
is_prefix (p ∷ pattern_) [] = false
is_prefix (p ∷ pattern_) (c ∷ buf) = p == c && is_prefix pattern_ buf

unfoldable pub any_pattern : (Wstring → Bool) → List Wstring → Bool
any_pattern p [] = false
any_pattern p (pat ∷ exclusions) = not (ltb (length pat) 2) && p pat || any_pattern p exclusions

unfoldable pub is_spell_excluded : Ctype → List CharState → List Wstring → Bool
is_spell_excluded ct states exclusions =
    let buf = exclusion_buf ct max_buf states in
    if length exclusions == 0 || length states == 0
    then false
    else any_pattern (λ pat. is_prefix pat buf) exclusions

-- The value that `UpdateSpellCheck` gives to `spellCheckDisabled`.
unfoldable pub update_spell_check : Ctype → TypingConfig → List CharState → Bool
update_spell_check ct config states =
    if not config.spell_check_enabled || length states == 0
    then false
    else if is_spell_excluded ct states config.spell_exclusions
    then false
    else is_invalid (validate_syllable_state states config.allow_zwjf)

-- The common prefix of a pattern and a buffer agrees.
unfoldable pub agree : (ℕ → ℕ → Bool) → Wstring → Wstring → Bool
agree cmp [] buf = true
agree cmp (p ∷ pattern_) [] = true
agree cmp (p ∷ pattern_) (c ∷ buf) = cmp p c && agree cmp pattern_ buf

unfoldable pub match_exclusion_buf_by : (ℕ → ℕ → Bool) → Wstring → List Wstring → Bool
match_exclusion_buf_by cmp buf exclusions =
    any_pattern (λ pat. not (min (length buf) (length pat) == 0) && agree cmp pat buf) exclusions

-- `MatchExclusionBuf` with `std::equal_to`.
unfoldable pub match_exclusion_buf : Wstring → List Wstring → Bool
match_exclusion_buf = match_exclusion_buf_by (λ a b. a == b)

unfoldable pub match_exclusion_buf_ignore_tone : Ctype → Wstring → List Wstring → Bool
match_exclusion_buf_ignore_tone ct =
    match_exclusion_buf_by (λ a b. strip_tone ct a == strip_tone ct b)

-- `BuildExclusionBuf`: as `exclusion_buf`, with one character in place of that at `idx`.
unfoldable pub build_exclusion_buf : Ctype → ℕ → List CharState → ℕ → ℕ → Wstring
build_exclusion_buf ct zero states idx override_char = []
build_exclusion_buf ct (suc room) [] idx override_char = []
build_exclusion_buf ct (suc room) (s ∷ states) zero override_char =
    let skip = exclusion_buf ct (suc room) states in
    let keep = ct.towlower override_char ∷ exclusion_buf ct room states in
    if override_char == 0 then skip else keep
build_exclusion_buf ct (suc room) (s ∷ states) (suc idx) override_char =
    let skip = build_exclusion_buf ct (suc room) states idx override_char in
    let keep = ct.towlower (compose ct s) ∷ build_exclusion_buf ct room states idx override_char in
    if compose ct s == 0 then skip else keep

unfoldable pub would_tone_match_exclusion : Ctype → List CharState → List Wstring → ℕ → ℕ → Bool
would_tone_match_exclusion ct states exclusions tone_idx toned_char =
    if length exclusions == 0 || length states == 0 || leb (length states) tone_idx
    then false
    else match_exclusion_buf (build_exclusion_buf ct max_buf states tone_idx toned_char) exclusions

unfoldable pub would_modifier_match_exclusion :
    Ctype → List CharState → List Wstring → ℕ → Modifier → Bool
would_modifier_match_exclusion ct states exclusions target m =
    let mod_char = compose ct (record (at states target) { mod_ = m }) in
    if length exclusions == 0 || length states == 0 || leb (length states) target
    then false
    else match_exclusion_buf_ignore_tone ct (build_exclusion_buf ct max_buf states target mod_char)
        exclusions

-- The loop of `WouldAnyModifierMatchExclusion` over `rounds` indices from `i` on; `eligible` is the
-- text of base vowels.
unfoldable pub any_modifier_from :
    Ctype → List CharState → List Wstring → Modifier → Wstring → ℕ → ℕ → Bool
any_modifier_from ct states exclusions m eligible zero i = false
any_modifier_from ct states exclusions m eligible (suc rounds) i =
    is_vowel (at states i)
      && mod_eq (at states i).mod_ no_mod
      && any (λ c. (at states i).base == c) eligible
      && would_modifier_match_exclusion ct states exclusions i m
    || any_modifier_from ct states exclusions m eligible rounds (suc i)

unfoldable pub would_any_modifier_match_exclusion :
    Ctype → List CharState → List Wstring → Modifier → Wstring → Bool
would_any_modifier_match_exclusion ct states exclusions m eligible =
    if length exclusions == 0 || length states == 0
    then false
    else any_modifier_from ct states exclusions m eligible (length states) 0
