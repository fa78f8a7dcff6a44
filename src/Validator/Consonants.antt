-- ===== src/Validator/Consonants.antt =====
-- Initial and final consonants of a state buffer.
use nexus_key.Base.{
  ℕ, Bool, true, false, not, ◌&&◌, ◌||◌, ◌==◌, leb, if◌then◌else◌, List, [], ◌∷◌, length,
}
use nexus_key.State.{
  CharState, mod_eq, no_mod, tone_value, Tone, no_tone, is_d, at, base_at, is_vowel_at,
}
use nexus_key.Phonology.Keys.{f_c, f_ch, f_k, f_m, f_n, f_ng, f_nh, f_p, f_t}

abbrev pub is_stroked : CharState → Bool
is_stroked s = is_d s && not (mod_eq s.mod_ no_mod)

-- The consonants that begin a syllable; z, j, w and f only if `allowZwjf` is set.
unfoldable pub is_initial_letter : ℕ → Bool → Bool
is_initial_letter c zwjf =
    c == b'b'
    || c == b'c'
    || c == b'd'
    || c == b'g'
    || c == b'h'
    || c == b'k'
    || c == b'l'
    || c == b'm'
    || c == b'n'
    || c == b'p'
    || c == b'q'
    || c == b'r'
    || c == b's'
    || c == b't'
    || c == b'v'
    || c == b'x'
    || zwjf && (c == b'z' || c == b'j' || c == b'w' || c == b'f')

unfoldable pub parse_initial_consonant : List CharState → Bool → ℕ
parse_initial_consonant states zwjf =
    let count = length states in
    let c0 = base_at states 0 in
    let c1 = base_at states 1 in
    if count == 0
    then 0
    else if is_stroked (at states 0)
    then 1
    else if is_vowel_at states 0
    then 0
    else if leb 3 count
        && c0 == b'n'
        && c1 == b'g'
        && base_at states 2 == b'h'
        && not (is_vowel_at states 1)
        && not (is_vowel_at states 2)
    then 3
    else if leb 2 count
        && not (is_vowel_at states 1)
        && not (is_d (at states 1))
        && (c0 == b'c' && c1 == b'h'
            || c0 == b'g' && c1 == b'h'
            || c0 == b'g' && c1 == b'i'
            || c0 == b'k' && c1 == b'h'
            || c0 == b'n' && c1 == b'g'
            || c0 == b'n' && c1 == b'h'
            || c0 == b'p' && c1 == b'h'
            || c0 == b'q' && c1 == b'u'
            || c0 == b't' && c1 == b'h'
            || c0 == b't' && c1 == b'r')
    then 2
    else if is_initial_letter c0 zwjf
    then 1
    else 0

unfoldable pub parse_final_consonant : List CharState → ℕ
parse_final_consonant states =
    let count = length states in
    let c0 = base_at states 0 in
    let c1 = base_at states 1 in
    if count == 0
    then 0
    else if is_vowel_at states 0
    then 0
    else if leb 2 count
        && not (is_vowel_at states 1)
        && (c0 == b'c' && c1 == b'h' || c0 == b'n' && c1 == b'g' || c0 == b'n' && c1 == b'h')
    then 2
    else if c0 == b'c' || c0 == b'k' || c0 == b'm' || c0 == b'n' || c0 == b'p' || c0 == b't'
    then 1
    else 0

unfoldable pub final_consonant_bit : List CharState → ℕ → ℕ
final_consonant_bit states final_len =
    let c0 = base_at states 0 in
    let c1 = base_at states 1 in
    if final_len == 0
    then 0
    else if final_len == 2
    then (if c0 == b'c' && c1 == b'h'
        then f_ch
        else if c0 == b'n' && c1 == b'g'
        then f_ng
        else if c0 == b'n' && c1 == b'h'
        then f_nh
        else 0)
    else if c0 == b'c'
    then f_c
    else if c0 == b'k'
    then f_k
    else if c0 == b'm'
    then f_m
    else if c0 == b'n'
    then f_n
    else if c0 == b'p'
    then f_p
    else if c0 == b't'
    then f_t
    else 0

unfoldable pub is_stop_final : List CharState → ℕ → Bool
is_stop_final states final_len =
    let c0 = base_at states 0 in
    if final_len == 0 then false else c0 == b'p' || c0 == b't' || c0 == b'c' || c0 == b'k'

unfoldable pub get_tone : List CharState → Tone
get_tone [] = no_tone
get_tone (s ∷ states) =
    let rest = get_tone states in if tone_value s.tone == 0 then rest else s.tone

unfoldable pub is_valid_consonant_prefix : List CharState → Bool → Bool
is_valid_consonant_prefix states zwjf =
    let count = length states in
    let c0 = base_at states 0 in
    let c1 = base_at states 1 in
    if count == 0
    then true
    else if count == 1 && not (is_vowel_at states 0)
    then is_initial_letter c0 zwjf || is_stroked (at states 0)
    else if count == 2 && not (is_vowel_at states 0) && not (is_vowel_at states 1)
    then c0 == b'c' && c1 == b'h'
      || c0 == b'g' && c1 == b'h'
      || c0 == b'k' && c1 == b'h'
      || c0 == b'n' && c1 == b'g'
      || c0 == b'n' && c1 == b'h'
      || c0 == b'p' && c1 == b'h'
      || c0 == b't' && c1 == b'h'
      || c0 == b't' && c1 == b'r'
    else count == 3
      && c0 == b'n'
      && c1 == b'g'
      && base_at states 2 == b'h'
      && not (is_vowel_at states 0)
      && not (is_vowel_at states 1)
      && not (is_vowel_at states 2)
