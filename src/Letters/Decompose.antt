-- ===== src/Letters/Decompose.antt =====
-- `DecomposeVietChar`: the base, modifier, tone and case of a character.
use nexus_key.Base.{ℕ, Bool, not, ◌==◌, if◌then◌else◌, Option, none, some, get_elem?}
use nexus_key.Letters.Case.{Ctype, between, to_lower_vietnamese}
use nexus_key.Letters.Tables.{find_toned, toned_vowel, tone_base}

-- The four results of the call; an index of -1 is `none`.
pub record Decomposed : Type 0 where
  pub base : ℕ
  pub mod_idx : Option ℕ
  pub tone_idx : Option ℕ
  pub is_upper : Bool

-- The helper `decomposeToneBase`, which keeps the tone that was found.
unfoldable pub decompose_tone_base : ℕ → Option ℕ → Bool → Option Decomposed
decompose_tone_base tb tone upper =
    if tb == b'a'
    then plain b'a'
    else if tb == b'e'
    then plain b'e'
    else if tb == b'i'
    then plain b'i'
    else if tb == b'o'
    then plain b'o'
    else if tb == b'u'
    then plain b'u'
    else if tb == b'y'
    then plain b'y'
    else if tb == 0xE2
    then marked b'a' 0
    else if tb == 0x103
    then marked b'a' 1
    else if tb == 0xEA
    then marked b'e' 0
    else if tb == 0xF4
    then marked b'o' 0
    else if tb == 0x1A1
    then marked b'o' 2
    else if tb == 0x1B0
    then marked b'u' 2
    else none
  where
    plain : ℕ → Option Decomposed
    plain b = some (record { base = b; mod_idx = none; tone_idx = tone; is_upper = upper })

    marked : ℕ → ℕ → Option Decomposed
    marked b m = some (record { base = b; mod_idx = some m; tone_idx = tone; is_upper = upper })

-- A character that is no modified vowel: a letter a to z stands for itself.
unfoldable pub decompose_plain : ℕ → Bool → Option Decomposed
decompose_plain lower upper =
    if between b'a' b'z' lower
    then some (record { base = lower; mod_idx = none; tone_idx = none; is_upper = upper })
    else none

-- The body of the function from the lower-case character on.
unfoldable pub decompose_lower : ℕ → Bool → Option Decomposed
unfolding decompose_tone_base find_toned decompose_plain
decompose_lower lower upper =
    if lower == 0x111
    then some (record { base = b'd'; mod_idx = some 3; tone_idx = none; is_upper = upper })
    else (elim (find_toned lower 0 toned_vowel) [
      | some p ↦ elim (get_elem? tone_base p.row) [
        | none ↦ none
        | some tb ↦ decompose_tone_base tb (some p.column) upper
      ]
      | none ↦ elim (decompose_tone_base lower none upper) [
        | some d ↦ some d
        | none ↦ decompose_plain lower upper
      ]
    ])

unfoldable pub decompose_viet_char : Ctype → ℕ → Option Decomposed
decompose_viet_char ct ch =
    let lower = to_lower_vietnamese ct ch in decompose_lower lower (not (lower == ch))
