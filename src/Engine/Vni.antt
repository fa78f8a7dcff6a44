-- ===== src/Engine/Vni.antt =====
-- The VNI modifiers: `HandleVniHorn` and `ProcessVniVowelModifier`.
use nexus_key.Base.{
  ℕ, suc, ◌+◌, Bool, true, false, not, ◌&&◌, ◌||◌, ◌==◌, if◌then◌else◌, none, some, List, length,
  ◌<|>◌,
}
use nexus_key.Scan.{find_last_at, find_first_at}
use nexus_key.State.{
  CharState, Modifier, no_mod, circumflex, breve, horn, mod_eq, is_horn, has_modifier, at, base_at,
  is_vowel_at,
}
use nexus_key.Letters.{Ctype}
use nexus_key.Validator.{validate_syllable_state, is_valid_prefix}
use nexus_key.English.{is_cluster_consonant}
use nexus_key.Helpers.{is_uo_edge_case_prefix, undo_horn_u}
use nexus_key.Engine.Core.{Engine, escape_horn, escape_modifier}
use nexus_key.Engine.Modify.{would_modifier_key_match_exclusion}
use nexus_key.Engine.Speculate.{
  would_be_valid_syllable, should_reject_modifier, relocate, set_mod_at,
}
use nexus_key.Engine.Circumflex.{escape_with}
use nexus_key.Engine.Horn.{or_unhandled}
use nexus_key.Engine.HornScan.{Attempt, done}

-- `isEligible`.
unfoldable pub is_eligible : Modifier → ℕ → Bool
is_eligible circumflex c = c == b'a' || c == b'e' || c == b'o'
is_eligible horn c = c == b'o' || c == b'u'
is_eligible breve c = c == b'a'
is_eligible _ c = false

-- A vowel that does not stand for a consonant.
abbrev pub is_nucleus_vowel : List CharState → ℕ → Bool
is_nucleus_vowel states i = is_vowel_at states i && not (is_cluster_consonant states i)

abbrev pub is_unmarked_at : List CharState → Modifier → ℕ → Bool
is_unmarked_at states m i =
    is_nucleus_vowel states i
    && is_eligible m (base_at states i)
    && mod_eq (at states i).mod_ no_mod

-- Pass 1: the last eligible vowel without a modifier takes it.
unfoldable pub mark_plain : Ctype → Modifier → ℕ → Engine → Attempt
mark_plain ct m key e = elim (find_last_at (is_unmarked_at e.states m) (length e.states)) [
  | none ↦ none
  | some i ↦
      (let relocates = is_valid_prefix (validate_syllable_state e.states e.config.allow_zwjf) in
        let marked : Engine = set_mod_at e i m in
        let blocked =
          if relocates
          then not (would_be_valid_syllable ct e i m none true)
            && not (would_modifier_key_match_exclusion ct e key)
          else should_reject_modifier ct e i m key in
        if blocked
        then some (false, e)
        else done (if relocates then relocate ct marked else marked))
]

abbrev swaps : Modifier → Modifier → Modifier → Modifier → Bool
swaps x y from to = mod_eq from x && mod_eq to y || mod_eq from y && mod_eq to x

-- â and ă, ô and ơ.
unfoldable pub can_switch : List CharState → Modifier → ℕ → Bool
can_switch states m i =
    is_nucleus_vowel states i
    && has_modifier (at states i)
    && (base_at states i == b'a' && swaps circumflex breve (at states i).mod_ m
        || base_at states i == b'o' && swaps circumflex horn (at states i).mod_ m)

-- Pass 1.5: a modifier gives way to another.
unfoldable pub switch_mark : Ctype → Modifier → Engine → Attempt
switch_mark ct m e = elim (find_last_at (can_switch e.states m) (length e.states)) [
  | none ↦ none
  | some i ↦
      (let undone : Engine = record e { states = undo_horn_u e.states i } in
        done (relocate ct (set_mod_at undone i m)))
]

-- Pass 2: the same modifier again goes, and the key stands as a letter.
unfoldable pub escape_mark : Ctype → Modifier → ℕ → Engine → Attempt
escape_mark ct m key e =
    elim (find_last_at (λ i. is_nucleus_vowel e.states i && mod_eq (at e.states i).mod_ m)
      (length e.states)) [
        | none ↦ none
        | some i ↦
            (let undone : Engine = record e { states = undo_horn_u e.states i } in
              done (escape_with ct key escape_modifier (set_mod_at undone i no_mod)))
      ]

unfoldable pub process_vni_vowel_modifier : Ctype → Modifier → ℕ → Engine → Bool × Engine
process_vni_vowel_modifier ct m key e =
    if length e.states == 0
    then (false, e)
    else or_unhandled (mark_plain ct m key e <|> switch_mark ct m e <|> escape_mark ct m key e) e

abbrev pub is_letter_vowel : List CharState → ℕ → ℕ → Bool
is_letter_vowel states c i = is_nucleus_vowel states i && base_at states i == c

-- The horn cycle of a neighbouring uo.
unfoldable pub vni_pair : Ctype → ℕ → ℕ → Engine → Attempt
vni_pair ct key u e =
    let o = suc u in
    let edge = is_uo_edge_case_prefix ct e.states u in
    let u_horn = is_horn (at e.states u) in
    let o_horn = is_horn (at e.states o) in
    let o_horned : Engine = set_mod_at e o horn in
    let u_horned : Engine = set_mod_at e u horn in
    let both_horned : Engine = set_mod_at u_horned o horn in
    let u_plain : Engine = set_mod_at e u no_mod in
    let both_plain : Engine = set_mod_at u_plain o no_mod in
    if not u_horn && not o_horn
    then done (relocate ct (if edge then o_horned else both_horned))
    else if u_horn && not o_horn
    then done (relocate ct o_horned)
    else if edge && not u_horn && o_horn
    then done (relocate ct u_horned)
    else if u_horn && o_horn
    then done (escape_with ct key escape_horn both_plain)
    else none

unfoldable pub vni_uo : Ctype → ℕ → Engine → Attempt
vni_uo ct key e = elim (find_last_at (is_letter_vowel e.states b'u') (length e.states)) [
  | none ↦ none
  | some u ↦ elim (find_last_at (is_letter_vowel e.states b'o') (length e.states)) [
    | none ↦ none
    | some o ↦ if o == u + 1 then vni_pair ct key u e else none
  ]
]

-- uu: the first u takes the horn, and gives it up again.
unfoldable pub vni_uu : Ctype → ℕ → Engine → Attempt
vni_uu ct key e = elim (find_first_at (is_letter_vowel e.states b'u') (length e.states) 0) [
  | none ↦ none
  | some first ↦ elim (find_last_at (is_letter_vowel e.states b'u') (length e.states)) [
    | none ↦ none
    | some last ↦
        if first == last
        then none
        else if mod_eq (at e.states first).mod_ no_mod && mod_eq (at e.states last).mod_ no_mod
        then done (relocate ct (set_mod_at e first horn))
        else if is_horn (at e.states first)
        then done (escape_with ct key escape_horn (set_mod_at e first no_mod))
        else none
  ]
]

unfoldable pub handle_vni_horn : Ctype → ℕ → Engine → Bool × Engine
handle_vni_horn ct key e =
    if length e.states == 0
    then (false, e)
    else or_unhandled
        (vni_uo ct key e <|> vni_uu ct key e <|> some (process_vni_vowel_modifier ct horn key e)) e
