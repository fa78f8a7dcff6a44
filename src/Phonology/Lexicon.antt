-- ===== src/Phonology/Lexicon.antt =====
-- Rendered vowels (`Decompose`) and the lists of onsets, nuclei and codas of Phonotactics.cpp.
use nexus_key.Base.{
  ℕ, Bool, true, false, not, ◌&&◌, ◌||◌, ◌==◌, leb, if◌then◌else◌, List, [], ◌∷◌, Wstring, codes,
  wstring_eq,
}
use nexus_key.State.{Tone, no_tone, acute, dot}

pub data VowelMod : Type 0 where
  plain circumflexed breved horned : VowelMod

-- `static_cast<uint8_t>` of a `VowelMod`.
abbrev pub vowel_mod_value : VowelMod → ℕ
vowel_mod_value plain = 0
vowel_mod_value circumflexed = 1
vowel_mod_value breved = 2
vowel_mod_value horned = 3

pub record VowelInfo : Type 0 where
  pub base : ℕ
  pub vmod : VowelMod

unfoldable pub decompose : ℕ → VowelInfo
decompose c =
    if c == b'a'
    then info b'a' plain
    else if c == 0x103
    then info b'a' breved
    else if c == 0xE2
    then info b'a' circumflexed
    else if c == b'e'
    then info b'e' plain
    else if c == 0xEA
    then info b'e' circumflexed
    else if c == b'i'
    then info b'i' plain
    else if c == b'o'
    then info b'o' plain
    else if c == 0xF4
    then info b'o' circumflexed
    else if c == 0x1A1
    then info b'o' horned
    else if c == b'u'
    then info b'u' plain
    else if c == 0x1B0
    then info b'u' horned
    else if c == b'y'
    then info b'y' plain
    else info 0 plain
  where
    info : ℕ → VowelMod → VowelInfo
    info b m = record { base = b; vmod = m }

-- `Decompose(c).base != 0`.
unfoldable pub is_vowel_char : ℕ → Bool
is_vowel_char c = not ((decompose c).base == 0)

unfoldable pub closed_vowels : List Wstring
closed_vowels =
    codes "ai"
    ∷ codes "ao"
    ∷ codes "au"
    ∷ codes "ay"
    ∷ codes "âu"
    ∷ codes "ây"
    ∷ codes "eo"
    ∷ codes "êu"
    ∷ codes "ia"
    ∷ codes "iu"
    ∷ codes "oi"
    ∷ codes "ôi"
    ∷ codes "ơi"
    ∷ codes "ui"
    ∷ codes "ưa"
    ∷ codes "ưi"
    ∷ codes "ưu"
    ∷ codes "iêu"
    ∷ codes "uôi"
    ∷ codes "uyu"
    ∷ codes "ươi"
    ∷ codes "ươu"
    ∷ codes "oai"
    ∷ codes "oay"
    ∷ codes "uây"
    ∷ codes "uya"
    ∷ codes "oeo"
    ∷ codes "oao"
    ∷ []

unfoldable pub pending_vowels : List Wstring
pending_vowels =
    codes "ă"
    ∷ codes "â"
    ∷ codes "iê"
    ∷ codes "oă"
    ∷ codes "uâ"
    ∷ codes "uô"
    ∷ codes "oo"
    ∷ codes "ôô"
    ∷ codes "ươ"
    ∷ codes "uyê"
    ∷ []

-- The loops that look a text up in a list.
unfoldable pub listed : Wstring → List Wstring → Bool
listed text [] = false
listed text (entry ∷ entries) = wstring_eq entry text || listed text entries

unfoldable pub is_closed_vowel_seq : Wstring → Bool
is_closed_vowel_seq vowels = listed vowels closed_vowels

unfoldable pub is_pending_vowel_seq : Wstring → Bool
is_pending_vowel_seq vowels = listed vowels pending_vowels

unfoldable pub is_stop_final_coda : Wstring → Bool
is_stop_final_coda coda =
    wstring_eq coda (codes "c")
    || wstring_eq coda (codes "ch")
    || wstring_eq coda (codes "p")
    || wstring_eq coda (codes "t")

unfoldable pub tone_allowed_for_coda : Wstring → Tone → Bool
tone_allowed_for_coda coda t = if not (is_stop_final_coda coda) then true else allowed t
  where
    allowed : Tone → Bool
    allowed no_tone = true
    allowed acute = true
    allowed dot = true
    allowed _ = false

unfoldable pub valid_onsets : List Wstring
valid_onsets =
    codes ""
    ∷ codes "b"
    ∷ codes "c"
    ∷ codes "d"
    ∷ codes "đ"
    ∷ codes "g"
    ∷ codes "h"
    ∷ codes "k"
    ∷ codes "l"
    ∷ codes "m"
    ∷ codes "n"
    ∷ codes "p"
    ∷ codes "q"
    ∷ codes "r"
    ∷ codes "s"
    ∷ codes "t"
    ∷ codes "v"
    ∷ codes "x"
    ∷ codes "ch"
    ∷ codes "gh"
    ∷ codes "gi"
    ∷ codes "kh"
    ∷ codes "ng"
    ∷ codes "nh"
    ∷ codes "ph"
    ∷ codes "qu"
    ∷ codes "th"
    ∷ codes "tr"
    ∷ codes "ngh"
    ∷ []

unfoldable pub is_known_onset : Wstring → Bool
is_known_onset text = listed text valid_onsets

unfoldable pub is_known_onset_prefix : Wstring → Bool
is_known_onset_prefix [] = true
is_known_onset_prefix (lead ∷ []) =
    if is_vowel_char lead then false else leb b'a' lead && leb lead b'z' || lead == 0x111
is_known_onset_prefix (x ∷ y ∷ text) = is_known_onset (x ∷ y ∷ text)

unfoldable pub valid_codas : List Wstring
valid_codas =
    codes "c"
    ∷ codes "m"
    ∷ codes "n"
    ∷ codes "p"
    ∷ codes "t"
    ∷ codes "ch"
    ∷ codes "ng"
    ∷ codes "nh"
    ∷ []

unfoldable pub is_known_coda : Wstring → Bool
is_known_coda text = listed text valid_codas
