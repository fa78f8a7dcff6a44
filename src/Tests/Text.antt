-- ===== src/Tests/Text.antt =====
-- The theorems on keys, letters, phonology and English protection at concrete inputs.
use nexus_key.Base.{ℕ, ◌≡◌, ◌⊎◌, refl, true, false, none, some, codes, List, [], ◌∷◌, length}
use nexus_key.Action.{horn_w, classes, classes-partition}
use nexus_key.State.{CharState, tilde, is_vowel_base, at, is_d}
use nexus_key.Letters.{
  FollowsAscii, FollowsUnicode-FollowsAscii, is_letter, compose, decompose_viet_char, parts,
  decompose-compose,
}
use nexus_key.Phonology.TonePosition.{collect, tone_position}
use nexus_key.Phonology.Placement.{IsPlaced, tone_position-IsPlaced}
use nexus_key.Phonology.Keys.{vowel_slot, key2, k_i, k_e, k_none, k_circ}
use nexus_key.Phonology.Syllable.{parse}
use nexus_key.Phonology.Parsing.{IsParseOf, parse-IsParseOf}
use nexus_key.Helpers.{find_stroke_d_target, cluster_start}
use nexus_key.Scan.{find_last}
use nexus_key.Tests.Fixtures.{locale, locale-FollowsUnicode, letter_at}

classes-partition_example : classes horn_w ≡ 1
classes-partition_example = classes-partition horn_w

-- A capital u with a tilde, which needs `towlower`.
abbrev capital_u : CharState
capital_u = record (letter_at b'u' 0) { tone = tilde; is_upper = true }

capital_u-is_letter : is_letter capital_u ≡ true
unfolding is_vowel_base
capital_u-is_letter = refl

locale-FollowsAscii : FollowsAscii locale
locale-FollowsAscii = FollowsUnicode-FollowsAscii locale locale-FollowsUnicode

decompose-compose_example :
    decompose_viet_char locale (compose locale capital_u) ≡ some (parts capital_u)
unfolding nexus_key.Letters.lower_char nexus_key.Letters.apply_tone nexus_key.Letters.apply_modifier
decompose-compose_example =
    decompose-compose locale capital_u locale-FollowsAscii (λ t. refl) capital_u-is_letter

-- The nucleus iê before n.
tone_position-IsPlaced_example :
    ((length (collect 16 (b'i' ∷ 0xEA ∷ [])) ≡ 0)
      × (tone_position (b'i' ∷ 0xEA ∷ []) (b'n' ∷ []) false ≡ none))
    ⊎ ((i : ℕ) × (tone_position (b'i' ∷ 0xEA ∷ []) (b'n' ∷ []) false ≡ some i)
        × IsPlaced (collect 16 (b'i' ∷ 0xEA ∷ [])) i)
tone_position-IsPlaced_example = tone_position-IsPlaced (b'i' ∷ 0xEA ∷ []) (b'n' ∷ []) false

parse-IsParseOf_example : IsParseOf (codes "nghieng") (parse (codes "nghieng"))
parse-IsParseOf_example = parse-IsParseOf (codes "nghieng")

-- The letters of "ddi".
abbrev ddi : List CharState
ddi = letter_at b'd' 0 ∷ letter_at b'd' 1 ∷ letter_at b'i' 2 ∷ []

ddi_target : find_stroke_d_target ddi ≡ some 1
unfolding find_stroke_d_target cluster_start find_last is_d at
ddi_target = refl

-- The nucleus iê.
abbrev ie : ℕ
ie = key2 (vowel_slot k_i k_none) (vowel_slot k_e k_circ)
