-- ===== src/Engine/Speculate.antt =====
-- `WouldBeValidSyllable`, `ShouldRejectModifier` and `IsInQUCluster`.
use nexus_key.Base.{
  ℕ, ◌+◌, ◌-◌, Bool, true, false, not, ◌&&◌, ◌||◌, ◌==◌, ltb, leb, if◌then◌else◌, Option, none,
  some, List, length, is_some,
}
use nexus_key.Scan.{find_last_at}
use nexus_key.State.{CharState, Modifier, no_mod, circumflex, mod_eq, at, base_at}
use nexus_key.Letters.{Ctype}
use nexus_key.Validator.{validate_syllable_state, is_invalid}
use nexus_key.Helpers.{set_mod}
use nexus_key.Engine.Core.{Engine}
use nexus_key.Engine.ToneTarget.{vowel_cap, is_tone_stop_coda_mismatch}
use nexus_key.Engine.Relocate.{relocate_tone_to_target}
use nexus_key.Engine.Modify.{would_modifier_key_match_exclusion}

-- The circumflex of a sister vowel goes, if `seen` shows that it has one.
unfoldable pub clear_circumflex : List CharState → Option ℕ → List CharState → List CharState
clear_circumflex seen none states = states
clear_circumflex seen (some c) states =
    if ltb c (length states) && mod_eq (at seen c).mod_ circumflex
    then set_mod states c no_mod
    else states

-- The buffer is not invalid, or invalid by its tone before a stop final only.
unfoldable pub is_acceptable : Ctype → Bool → List CharState → Bool
is_acceptable ct zwjf states =
    not (is_invalid (validate_syllable_state states zwjf)) || is_tone_stop_coda_mismatch ct states

-- The buffer with the modifier, with the tone placed anew.
unfoldable pub speculate_relocated :
    Ctype → Bool → List CharState → ℕ → Modifier → Option ℕ → List CharState
speculate_relocated ct modern states target m clear =
    relocate_tone_to_target ct modern (clear_circumflex states clear (set_mod states target m))

-- The buffer with the modifier, with the tone where it is.
unfoldable pub speculate_in_place : List CharState → ℕ → Modifier → Option ℕ → List CharState
speculate_in_place states target m clear =
    let marked = set_mod states target m in clear_circumflex marked clear marked

unfoldable pub would_be_valid_syllable : Ctype → Engine → ℕ → Modifier → Option ℕ → Bool → Bool
would_be_valid_syllable ct e target m clear relocates =
    let relocated = speculate_relocated ct e.config.modern_ortho e.states target m clear in
    let in_place = speculate_in_place e.states target m clear in
    if not e.config.spell_check_enabled
    then true
    else if leb (length e.states) target
    then true
    else if relocates
    then (if ltb vowel_cap (length e.states)
        then true
        else is_acceptable ct e.config.allow_zwjf relocated)
    else is_acceptable ct e.config.allow_zwjf in_place

unfoldable pub should_reject_modifier : Ctype → Engine → ℕ → Modifier → ℕ → Bool
should_reject_modifier ct e target m key =
    if not e.config.spell_check_enabled
    then false
    else not (would_be_valid_syllable ct e target m none false)
      && not (would_modifier_key_match_exclusion ct e key)

-- A `u` without a modifier after a `q`.
unfoldable pub is_qu_pair_at : List CharState → ℕ → Bool
is_qu_pair_at states i =
    base_at states i == b'q'
    && (base_at states (i + 1) == b'u' && mod_eq (at states (i + 1)).mod_ no_mod)

unfoldable pub is_in_qu_cluster : Engine → Bool
is_in_qu_cluster e =
    if ltb (length e.states) 2
    then false
    else is_some (find_last_at (is_qu_pair_at e.states) (length e.states - 1))

-- `RelocateToneToTarget` on the engine.
abbrev pub relocate : Ctype → Engine → Engine
relocate ct e = record e { states = relocate_tone_to_target ct e.config.modern_ortho e.states }

abbrev pub set_mod_at : Engine → ℕ → Modifier → Engine
set_mod_at e i m = record e { states = set_mod e.states i m }
