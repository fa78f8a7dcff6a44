-- ===== src/Engine/Parity.antt =====
-- A modifier that is accepted leaves the buffer that was tried out: `WouldBeValidSyllable` against the
-- handlers that call it.
use nexus_key.Base.{ℕ, ◌-◌, ◌≤◌, ◌<◌, ◌≡◌, Bool, true, false, none, some, List, length, arith}
use nexus_key.Scan.{find_last_at-bound}
use nexus_key.State.{CharState, Modifier, circumflex, breve, mod_eq, at}
use nexus_key.Letters.{Ctype}
use nexus_key.Engine.Core.{Engine}
use nexus_key.Engine.Modify.{would_modifier_key_match_exclusion}
use nexus_key.Engine.Speculate.{
  clear_circumflex, is_acceptable, speculate_relocated, speculate_in_place, would_be_valid_syllable,
  should_reject_modifier, relocate, set_mod_at,
}
use nexus_key.Engine.Circumflex.{completes_triphthong, adjacent_circumflex}
use nexus_key.Engine.Horn.{has_non_vowel_after, is_refused, breve_a}
use nexus_key.Engine.HornScan.{analyse}

-- What the engine accepts as the buffer of a word.
abbrev pub accepts : Ctype → Engine → Bool
accepts ct e = is_acceptable ct e.config.allow_zwjf e.states

relocated-accepts :
    (ct : Ctype) (e : Engine) (i : ℕ) (m : Modifier)
    → e.config.spell_check_enabled ≡ true
    → i < length e.states
    → length e.states ≤ 16
    → would_be_valid_syllable ct e i m none true ≡ true
    → accepts ct (relocate ct (set_mod_at e i m)) ≡ true
unfolding would_be_valid_syllable speculate_relocated clear_circumflex
relocated-accepts ct e i m spell inside short h = ground arith

in_place-accepts :
    (ct : Ctype) (e : Engine) (i : ℕ) (m : Modifier)
    → e.config.spell_check_enabled ≡ true
    → i < length e.states
    → would_be_valid_syllable ct e i m none false ≡ true
    → accepts ct (set_mod_at e i m) ≡ true
unfolding would_be_valid_syllable speculate_in_place clear_circumflex
in_place-accepts ct e i m spell inside h = ground arith

-- With spell check on, at most sixteen letters, no spell exclusion that the key may lead to, and a last
-- vowel that has no circumflex and ends no triphthong: if the circumflex of a doubled vowel is taken, the
-- buffer with the tone placed is not invalid, or invalid by its tone before a stop final only.
pub adjacent_circumflex-accepts :
    (ct : Ctype) (key target : ℕ) (e : Engine)
    → e.config.spell_check_enabled ≡ true
    → 1 ≤ length e.states
    → length e.states ≤ 16
    → would_modifier_key_match_exclusion ct e key ≡ false
    → would_modifier_key_match_exclusion ct e target ≡ false
    → mod_eq (at e.states (length e.states - 1)).mod_ circumflex ≡ false
    → completes_triphthong e.states (length e.states - 3) (at e.states (length e.states - 1)).base
      ≡ false
    → (adjacent_circumflex ct key target e).0 ≡ true
    → accepts ct (adjacent_circumflex ct key target e).1 ≡ true
unfolding adjacent_circumflex should_reject_modifier
adjacent_circumflex-accepts ct key target e spell nonempty short k t plain no_tri taken =
    let i = length e.states - 1 in
    let p = relocated-accepts ct e i circumflex spell in
    let q = in_place-accepts ct e i circumflex spell in ground arith

analyse-inside : (ss : List CharState) (a : ℕ) → (analyse ss).a ≡ some a → a < length ss
unfolding analyse
analyse-inside ss a h = find_last_at-bound _ (length ss) a h

-- With spell check on, a breve that w puts on the a of a closed syllable leaves a buffer that is not
-- invalid, or invalid by its tone before a stop final only.
pub breve_a-accepts :
    (ct : Ctype) (e f : Engine) (a : ℕ)
    → e.config.spell_check_enabled ≡ true
    → (analyse e.states).a ≡ some a
    → has_non_vowel_after e.states a ≡ true
    → breve_a ct (analyse e.states) e ≡ some (true, f)
    → accepts ct f ≡ true
unfolding breve_a is_refused
breve_a-accepts ct e f a spell here after taken =
    let inside = analyse-inside e.states a here in
    let q = in_place-accepts ct e a breve spell inside in ground arith
