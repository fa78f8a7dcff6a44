-- ===== src/Letters/Compose.antt =====
-- `TypingEngine::Compose`: the character that a state stands for.
use nexus_key.Base.{ℕ, ◌&&◌, ◌==◌, if◌then◌else◌, Option, none, some}
use nexus_key.State.{
  Modifier, circumflex, breve, horn, stroke, Tone, acute, grave, hook, tilde, dot, mod_eq,
  CharState, is_vowel_base, is_d, is_empty,
}
use nexus_key.Letters.Case.{Ctype, to_upper_vietnamese}
use nexus_key.Letters.Tables.{cell, modified_vowel, toned_vowel, vowel_base_index, tone_base_index}

unfoldable pub modifier_index : Modifier → Option ℕ
modifier_index circumflex = some 0
modifier_index breve = some 1
modifier_index horn = some 2
modifier_index _ = none

abbrev pub tone_index : Tone → Option ℕ
tone_index acute = some 0
tone_index grave = some 1
tone_index hook = some 2
tone_index tilde = some 3
tone_index dot = some 4
tone_index _ = none

-- Step 1: the modifier. Of `base`, `None` and a consonant stay as they are.
unfoldable pub apply_modifier : ℕ → Modifier → ℕ
unfolding vowel_base_index modifier_index is_vowel_base
apply_modifier base m =
    if is_vowel_base base
    then (elim (vowel_base_index base) [
      | none ↦ base
      | some bi ↦ elim (modifier_index m) [
        | none ↦ base
        | some mi ↦ if cell modified_vowel bi mi == 0 then base else cell modified_vowel bi mi
      ]
    ])
    else base

-- Step 2: the tone.
unfoldable pub apply_tone : ℕ → Tone → ℕ
unfolding tone_base_index
apply_tone ch t = elim (tone_base_index ch) [
  | none ↦ ch
  | some ti ↦ elim (tone_index t) [ none ↦ ch | some si ↦ cell toned_vowel ti si ]
]

unfoldable pub compose : Ctype → CharState → ℕ
unfolding is_empty is_d
compose ct s =
    if is_empty s
    then 0
    else if is_d s && mod_eq s.mod_ stroke
    then (if s.is_upper then 0x110 else 0x111)
    else (let ch = apply_tone (apply_modifier s.base s.mod_) s.tone in
        if s.is_upper then to_upper_vietnamese ct ch else ch)
