-- ===== src/Engine/Relocate.antt =====
-- The tone moves to another vowel: `RelocateToneToHornVowel`, `RelocateToneToTarget`; and
-- `ApplyAutoUO`.
use nexus_key.Base.{
  ℕ, zero, suc, ◌+◌, ◌-◌, Bool, not, ◌&&◌, ◌||◌, ◌==◌, ltb, if◌then◌else◌, none, some, List, length,
  set,
}
use nexus_key.Scan.{find_last}
use nexus_key.State.{
  CharState, no_tone, mod_eq, no_mod, horn, is_vowel, is_horn, has_tone, at, base_at,
}
use nexus_key.Letters.{Ctype}
use nexus_key.Helpers.{
  set_mod, find_toned_vowel_index, has_consonant_between, is_tone_reloc_blocked_by_p4,
}
use nexus_key.Engine.ToneTarget.{find_tone_target}

-- The last horned vowel takes the tone of the last toned vowel.
unfoldable pub relocate_tone_to_horn_vowel : List CharState → List CharState
relocate_tone_to_horn_vowel states = elim (find_last (λ s. is_vowel s && is_horn s) 0 states) [
  | none ↦ states
  | some h ↦ elim (find_last (λ s. is_vowel s && has_tone s) 0 states) [
    | none ↦ states
    | some t ↦
        if not (h == t)
          && (mod_eq (at states t).mod_ no_mod || is_horn (at states t))
          && not (has_consonant_between states t h)
        then set (set states h (record (at states h) { tone = (at states t).tone })) t
            (record (at states t) { tone = no_tone })
        else states
  ]
]

-- The tone of `from` moves to `to`, with the index of its key.
unfoldable pub move_tone : List CharState → ℕ → ℕ → List CharState
move_tone states from to =
    let f = at states from in
    set (set states to (record (at states to) { tone = f.tone; tone_raw_idx = f.tone_raw_idx }))
      from (record f { tone = no_tone; tone_raw_idx = none })

unfoldable pub relocate_tone_to_target : Ctype → Bool → List CharState → List CharState
relocate_tone_to_target ct modern states = elim (find_toned_vowel_index states) [
  | none ↦ states
  | some from ↦ elim (find_tone_target ct modern states) [
    | none ↦ states
    | some to ↦
        if to == from
        then states
        else if has_consonant_between states from to
        then states
        else if is_tone_reloc_blocked_by_p4 states to modern
        then states
        else move_tone states from to
  ]
]

abbrev is_plain_base : List CharState → ℕ → ℕ → Bool
is_plain_base states i c = base_at states i == c && mod_eq (at states i).mod_ no_mod

abbrev is_horned_base : List CharState → ℕ → ℕ → Bool
is_horned_base states i c = base_at states i == c && is_horn (at states i)

-- Pattern 1: u before ơ takes the horn.
unfoldable pub complete_u : List CharState → ℕ → List CharState
complete_u states i =
    if is_plain_base states i b'u' && is_horned_base states (i + 1) b'o'
    then set_mod states i horn
    else states

-- Pattern 2: o after ư takes the horn, and the tone is placed anew.
unfoldable pub complete_o : Ctype → Bool → List CharState → ℕ → List CharState
complete_o ct modern states i =
    if is_horned_base states i b'u' && is_plain_base states (i + 1) b'o'
    then relocate_tone_to_target ct modern (set_mod states (i + 1) horn)
    else states

-- One round of the loop, which skips the u of qu.
unfoldable pub auto_uo_at : Ctype → Bool → List CharState → ℕ → List CharState
auto_uo_at ct modern states i =
    if ltb 0 i && base_at states i == b'u' && base_at states (i - 1) == b'q'
    then states
    else complete_o ct modern (complete_u states i) i

unfoldable pub auto_uo_from : Ctype → Bool → ℕ → ℕ → List CharState → List CharState
auto_uo_from ct modern zero i states = states
auto_uo_from ct modern (suc rounds) i states =
    auto_uo_from ct modern rounds (suc i) (auto_uo_at ct modern states i)

-- The loop runs while `i + 2 < size`, from four before the end.
unfoldable pub apply_auto_uo : Ctype → Bool → List CharState → List CharState
apply_auto_uo ct modern states =
    let n = length states in
    if ltb n 3
    then states
    else (let start = n - 4 in auto_uo_from ct modern (n - 2 - start) start states)
