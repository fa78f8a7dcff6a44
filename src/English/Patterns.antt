-- ===== src/English/Patterns.antt =====
-- Consonants that no Vietnamese word begins or ends with, and the prefixes of raw keystrokes that
-- block a tone or a modifier. `towlower` is a parameter.
use nexus_key.Base.{ℕ, Bool, true, false, not, ◌&&◌, ◌||◌, ◌==◌, List, [], ◌∷◌, Wstring, codes}
use nexus_key.Letters.{Ctype}

unfoldable pub is_hard_english_cluster : ℕ → ℕ → Bool
is_hard_english_cluster c0 c1 =
    c0 == b'c' && c1 == b'l'
    || c0 == b'c' && c1 == b'r'
    || c0 == b'b' && c1 == b'r'
    || c0 == b'b' && c1 == b'l'
    || c0 == b'd' && c1 == b'r'
    || c0 == b'f' && c1 == b'r'
    || c0 == b'f' && c1 == b'l'
    || c0 == b'g' && c1 == b'r'
    || c0 == b'g' && c1 == b'l'
    || c0 == b'p' && c1 == b'r'
    || c0 == b'p' && c1 == b'l'
    || c0 == b's' && c1 == b'm'
    || c0 == b's' && c1 == b'n'
    || c0 == b's' && c1 == b'p'
    || c0 == b's' && c1 == b'w'
    || c0 == b's' && c1 == b't'
    || c0 == b's' && c1 == b'c'
    || c0 == b's' && c1 == b'k'
    || c0 == b's' && c1 == b'l'
    || c0 == b'w' && c1 == b'h'
    || c0 == b'w' && c1 == b'r'
    || c0 == b'k' && c1 == b'n'
    || c0 == b'p' && c1 == b'n'
    || c0 == b'p' && c1 == b's'

unfoldable pub is_hard_english_start : Ctype → ℕ → ℕ → Bool
is_hard_english_start ct c0 c1 = is_hard_english_cluster (ct.towlower c0) (ct.towlower c1)

unfoldable pub is_hard_english_raw_start : Ctype → List ℕ → Bool
is_hard_english_raw_start ct [] = false
is_hard_english_raw_start ct (c0 ∷ []) = false
is_hard_english_raw_start ct (c0 ∷ c1 ∷ raw) = is_hard_english_start ct c0 c1

unfoldable pub is_hard_english_end_letter : ℕ → Bool
is_hard_english_end_letter c =
    c == b'x' || c == b'r' || c == b'z' || c == b'f' || c == b's' || c == b'j'

unfoldable pub is_hard_english_end : Ctype → ℕ → Bool
is_hard_english_end ct c = is_hard_english_end_letter (ct.towlower c)

unfoldable pub is_q_without_u : Ctype → ℕ → ℕ → Bool
is_q_without_u ct c0 c1 = ct.towlower c0 == b'q' && not (ct.towlower c1 == b'u')

unfoldable pub blocked_tone_prefixes : List Wstring
blocked_tone_prefixes = codes "pas" ∷ codes "gues" ∷ []

unfoldable pub blocked_modifier_prefixes : List Wstring
blocked_modifier_prefixes = codes "pow" ∷ codes "upw" ∷ []

-- The lower-cased keystrokes begin with the pattern.
unfoldable pub matches_prefix : Ctype → List ℕ → Wstring → Bool
matches_prefix ct raw [] = true
matches_prefix ct [] (p ∷ pattern_) = false
matches_prefix ct (c ∷ raw) (p ∷ pattern_) = ct.towlower c == p && matches_prefix ct raw pattern_

unfoldable pub matches_raw_prefix : Ctype → List ℕ → List Wstring → Bool
matches_raw_prefix ct raw [] = false
matches_raw_prefix ct raw (rule ∷ rules) =
    matches_prefix ct raw rule || matches_raw_prefix ct raw rules

unfoldable pub is_blocked_english_tone : Ctype → List ℕ → Bool
is_blocked_english_tone ct raw = matches_raw_prefix ct raw blocked_tone_prefixes

unfoldable pub is_blocked_english_modifier : Ctype → List ℕ → Bool
is_blocked_english_modifier ct raw = matches_raw_prefix ct raw blocked_modifier_prefixes
