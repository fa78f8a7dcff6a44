-- ===== src/Helpers/Restore.antt =====
-- Whether a word is put back to its raw keystrokes when it is committed.
use nexus_key.Base.{
  ℕ, Bool, true, false, not, ◌&&◌, ◌||◌, ◌==◌, ltb, leb, if◌then◌else◌, List, [], ◌∷◌, Wstring,
  wstring_eq, length, any,
}
use nexus_key.State.{is_vowel_base}
use nexus_key.Letters.{Ctype}

unfoldable pub should_auto_restore : Wstring → Wstring → Bool
should_auto_restore raw composed =
    if wstring_eq raw composed
    then false
    else if any (λ ch. ltb 0x7F ch) composed
    then true
    else leb (length raw) (length composed)

abbrev is_d_key : ℕ → Bool
is_d_key c = c == b'd' || c == b'D'

-- Two neighbouring keys dd or d9.
unfoldable pub has_raw_dd : List ℕ → Bool
has_raw_dd [] = false
has_raw_dd (c ∷ []) = false
has_raw_dd (c ∷ next ∷ raw) =
    is_d_key c && (is_d_key next || next == b'9') || has_raw_dd (next ∷ raw)

abbrev is_stroked_d : ℕ → Bool
is_stroked_d c = c == 0x111 || c == 0x110

-- The text holds đ, and no plain vowel after the last one.
unfoldable pub ends_in_stroke_d : Ctype → Wstring → Bool
ends_in_stroke_d ct [] = false
ends_in_stroke_d ct (c ∷ cs) =
    let rest = ends_in_stroke_d ct cs in
    if any is_stroked_d cs
    then rest
    else is_stroked_d c && not (any (λ x. is_vowel_base (ct.towlower x)) cs)

unfoldable pub has_intentional_stroke_d : Ctype → List ℕ → Wstring → Bool
has_intentional_stroke_d ct raw composed = has_raw_dd raw && ends_in_stroke_d ct composed
