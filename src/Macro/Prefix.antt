-- ===== src/Macro/Prefix.antt =====
-- The prefixes of macros of several words: src/core/MacroPrefix.h. The set of keys is a list.
use nexus_key.Base.{
  ℕ, suc, ◌≤◌, ◌≡◌, ◌∙◌, sym, refl, ap, Bool, true, false, not, ◌&&◌, ◌||◌, ◌==◌, ltb,
  if◌then◌else◌, List, [], ◌∷◌, ◌++◌, Wstring, wstring_eq, length, take, any, arith,
}
use nexus_key.Macro.{Wctype, lower_copy}

abbrev pub starts_with : Wstring → Wstring → Bool
starts_with key s = not (ltb (length key) (length s)) && wstring_eq (take (length s) key) s

-- A key with an upper-case letter is compared as it is, any other without regard to case.
unfoldable pub is_prefix_of : Wctype → Wstring → Wstring → Bool
is_prefix_of w candidate key =
    if ltb (length key) (length candidate)
    then false
    else if any w.iswupper key
    then starts_with key candidate
    else starts_with key (lower_copy w candidate)

unfoldable pub is_space_macro_prefix : Wctype → Wstring → List Wstring → Bool
is_space_macro_prefix w candidate space_keys =
    if length space_keys == 0 || length candidate == 0
    then false
    else any (is_prefix_of w candidate) space_keys

wstring_eq-shorter :
    (key s : Wstring) (c : ℕ)
    → wstring_eq (take (length (s ++ c ∷ [])) key) (s ++ c ∷ []) ≡ true
    → wstring_eq (take (length s) key) s ≡ true
wstring_eq-shorter key [] c h = refl
wstring_eq-shorter [] (d ∷ s) c h = ground arith
wstring_eq-shorter (k ∷ key) (d ∷ s) c h = ground (arith, wstring_eq-shorter key s c)

length-longer : (s : Wstring) (c : ℕ) → length (s ++ c ∷ []) ≡ suc (length s)
length-longer [] c = refl
length-longer (d ∷ s) c = ap suc (length-longer s c)

starts_with-shorter :
    (key s : Wstring) (c : ℕ) → starts_with key (s ++ c ∷ []) ≡ true → starts_with key s ≡ true
starts_with-shorter key s c h =
    let n = length-longer s c in let k = wstring_eq-shorter key s c in ground arith

lower_copy-longer :
    (w : Wctype) (s : Wstring) (c : ℕ)
    → lower_copy w (s ++ c ∷ []) ≡ lower_copy w s ++ w.towlower c ∷ []
unfolding lower_copy
lower_copy-longer w [] c = refl
lower_copy-longer w (d ∷ s) c = ap (λ t. w.towlower d ∷ t) (lower_copy-longer w s c)

starts_with-lower :
    (w : Wctype) (key s : Wstring) (c : ℕ)
    → starts_with key (lower_copy w (s ++ c ∷ [])) ≡ true
    → starts_with key (lower_copy w s) ≡ true
starts_with-lower w key s c h =
    starts_with-shorter key (lower_copy w s) (w.towlower c)
      (ap (starts_with key) (sym (lower_copy-longer w s c)) ∙ h)

is_prefix_of-shorter :
    (w : Wctype) (s : Wstring) (c : ℕ) (key : Wstring)
    → is_prefix_of w (s ++ c ∷ []) key ≡ true
    → is_prefix_of w s key ≡ true
unfolding is_prefix_of
is_prefix_of-shorter w s c key h =
    let n = length-longer s c in
    let a = starts_with-shorter key s c in let b = starts_with-lower w key s c in ground arith

any-shorter :
    (w : Wctype) (s : Wstring) (c : ℕ) (keys : List Wstring)
    → any (is_prefix_of w (s ++ c ∷ [])) keys ≡ true
    → any (is_prefix_of w s) keys ≡ true
any-shorter w s c [] h = h
any-shorter w s c (key ∷ keys) h =
    ground (arith, is_prefix_of-shorter w s c key, any-shorter w s c keys)

-- A text that may begin a macro of several words stays one when its last character is taken away, as
-- long as something is left.
pub is_space_macro_prefix-shorter :
    (w : Wctype) (s : Wstring) (c : ℕ) (keys : List Wstring)
    → 1 ≤ length s
    → is_space_macro_prefix w (s ++ c ∷ []) keys ≡ true
    → is_space_macro_prefix w s keys ≡ true
unfolding is_space_macro_prefix
is_space_macro_prefix-shorter w s c keys h p = ground (arith, any-shorter w s c keys)
