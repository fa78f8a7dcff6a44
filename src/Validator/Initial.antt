-- ===== src/Validator/Initial.antt =====
-- The initial consonants that PhonotacticsValidator.cpp takes, against a list of those of Vietnamese.
use nexus_key.Base.{
  ℕ, ◌≤◌, ◌≡◌, refl, ap, sym, leb, ◌∙◌, ◌⊎◌, inl, inr, Bool, true, List, [], ◌∷◌, length, any, map,
  take, not, false, codes, wstring_eq, Wstring, ◌&&◌, ◌||◌, ◌==◌, zero, suc, if◌then◌else◌,
  Bool-cases, arith,
}
use nexus_key.State.{CharState, is_d, at, base_at, is_vowel_at}
use nexus_key.Phonology.Keys.{is_front_base_vowel}
use nexus_key.Validator.Consonants.{parse_initial_consonant, is_initial_letter, is_stroked}
use nexus_key.Validator.Syllable.{clashes}

-- The consonants that begin a syllable; z, j, w and f only if `allowZwjf` is set.
abbrev pub is_onset : Bool → Wstring → Bool
is_onset zwjf (c ∷ []) =
    any (λ d. c == d) (codes "bcdghklmnpqrstvx") || zwjf && any (λ d. c == d) (codes "zjwf")
is_onset zwjf (c ∷ d ∷ []) =
    any (λ text. wstring_eq (c ∷ d ∷ []) (codes text))
      ("ch" ∷ "gh" ∷ "gi" ∷ "kh" ∷ "ng" ∷ "nh" ∷ "ph" ∷ "qu" ∷ "th" ∷ "tr" ∷ [])
is_onset zwjf (c ∷ d ∷ e ∷ []) = wstring_eq (codes "ngh") (c ∷ d ∷ e ∷ [])
is_onset zwjf _ = false

-- k, gh and ngh stand before front vowels, c before others, and q before u.
abbrev pub agrees : Wstring → ℕ → Bool
agrees (c ∷ []) first =
    if c == b'k'
    then is_front_base_vowel first
    else if c == b'c'
    then not (is_front_base_vowel first)
    else if c == b'q'
    then first == b'u'
    else true
agrees (c ∷ d ∷ []) first =
    if wstring_eq (codes "gh") (c ∷ d ∷ []) then is_front_base_vowel first else true
agrees (c ∷ d ∷ e ∷ []) first =
    if wstring_eq (codes "ngh") (c ∷ d ∷ e ∷ []) then is_front_base_vowel first else true
agrees _ first = true

abbrev pub bases : ℕ → List CharState → Wstring
bases n states = map (λ s. s.base) (take n states)

-- No initial consonant, or one of `n` states that goes with the vowel after it.
abbrev pub IsInitial : Bool → List CharState → ℕ → Type 0
IsInitial zwjf states n =
    (n ≡ 0)
    ⊎ ((is_onset zwjf (bases n states) ≡ true)
        × (agrees (bases n states) (base_at states n) ≡ true))

-- The g of gi, and gi and qu, are initial consonants before any vowel.
pub g-IsInitial :
    (zwjf : Bool) (states : List CharState)
    → (base_at states 0 == b'g') ≡ true
    → IsInitial zwjf states 1
unfolding at
g-IsInitial zwjf [] h = ground arith
g-IsInitial zwjf (s ∷ states) h = inr (ground (arith, h), ground (arith, h))

abbrev pub is_gi_or_qu : List CharState → Bool
is_gi_or_qu states =
    base_at states 0 == b'g' && base_at states 1 == b'i'
    || base_at states 0 == b'q' && base_at states 1 == b'u'

pub gi_or_qu-IsInitial :
    (zwjf : Bool) (states : List CharState) → is_gi_or_qu states ≡ true → IsInitial zwjf states 2
unfolding at
gi_or_qu-IsInitial zwjf [] h = ground arith
gi_or_qu-IsInitial zwjf (s ∷ []) h = ground arith
gi_or_qu-IsInitial zwjf (s ∷ t ∷ states) h = inr (ground (arith, h), ground (arith, h))

pub parse_initial_consonant-le :
    (states : List CharState) (zwjf : Bool) → parse_initial_consonant states zwjf ≤ 3
unfolding parse_initial_consonant
parse_initial_consonant-le states zwjf = ground arith

pub parse_initial_consonant-length :
    (states : List CharState) (zwjf : Bool) → parse_initial_consonant states zwjf ≤ length states
unfolding parse_initial_consonant
parse_initial_consonant-length states zwjf = ground arith

-- What the parser takes for an initial consonant is one.
abbrev pub IsOnset : Bool → List CharState → ℕ → Type 0
IsOnset zwjf states n = (n ≡ 0) ⊎ (is_onset zwjf (bases n states) ≡ true)

-- The pairs of letters that the parser takes.
abbrev pub is_pair : ℕ → ℕ → Bool
is_pair c d =
    c == b'c' && d == b'h'
    || c == b'g' && d == b'h'
    || c == b'g' && d == b'i'
    || c == b'k' && d == b'h'
    || c == b'n' && d == b'g'
    || c == b'n' && d == b'h'
    || c == b'p' && d == b'h'
    || c == b'q' && d == b'u'
    || c == b't' && d == b'h'
    || c == b't' && d == b'r'

pub pair-is_onset : (zwjf : Bool) (c d : ℕ) → is_pair c d ≡ true → is_onset zwjf (c ∷ d ∷ []) ≡ true
pair-is_onset zwjf c d h = ground (arith, h)

-- The parser, with its test of a pair given.
abbrev pub parsed_with : Bool → List CharState → Bool → ℕ
parsed_with pair states zwjf =
    if length states == 0
    then 0
    else if is_stroked (at states 0)
    then 1
    else if is_vowel_at states 0
    then 0
    else if leb 3 (length states)
        && base_at states 0 == b'n'
        && base_at states 1 == b'g'
        && base_at states 2 == b'h'
        && not (is_vowel_at states 1)
        && not (is_vowel_at states 2)
    then 3
    else if leb 2 (length states) && not (is_vowel_at states 1) && not (is_d (at states 1)) && pair
    then 2
    else if is_initial_letter (base_at states 0) zwjf
    then 1
    else 0

pub parse_initial_consonant-parsed_with :
    (states : List CharState) (zwjf : Bool)
    → parse_initial_consonant states zwjf
      ≡ parsed_with (is_pair (base_at states 0) (base_at states 1)) states zwjf
unfolding parse_initial_consonant
parse_initial_consonant-parsed_with states zwjf = refl

pub no_pair : (states : List CharState) (zwjf : Bool) → ¬ parsed_with false states zwjf ≡ 2
no_pair states zwjf e = ground (arith, e)

pub parsed_pair :
    (s t : CharState) (states : List CharState) (zwjf : Bool)
    → parse_initial_consonant (s ∷ t ∷ states) zwjf ≡ 2
    → is_pair s.base t.base ≡ true
unfolding at
parsed_pair s t states zwjf e =
    let all_states = s ∷ t ∷ states in
    elim (Bool-cases (is_pair s.base t.base)) [
      | inl p ↦ p
      | inr f ↦ absurd (
          no_pair all_states zwjf (
            sym (ap (λ b. parsed_with b all_states zwjf) f)
            ∙ sym (parse_initial_consonant-parsed_with all_states zwjf)
            ∙ e))
    ]

pub is_triple : ℕ → ℕ → ℕ → Bool
is_triple c d e = c == b'n' && d == b'g' && e == b'h'

pub triple-is_onset :
    (zwjf : Bool) (c d e : ℕ) → is_triple c d e ≡ true → is_onset zwjf (c ∷ d ∷ e ∷ []) ≡ true
unfolding is_triple
triple-is_onset zwjf c d e h = ground (arith, h)

pub parsed_triple :
    (s t u : CharState) (states : List CharState) (zwjf : Bool)
    → parse_initial_consonant (s ∷ t ∷ u ∷ states) zwjf ≡ 3
    → is_triple s.base t.base u.base ≡ true
unfolding at is_triple
parsed_triple s t u states zwjf e =
    with_pair (is_pair s.base t.base)
      (sym (parse_initial_consonant-parsed_with (s ∷ t ∷ u ∷ states) zwjf) ∙ e)
  where
    with_pair :
        (pair : Bool)
        → parsed_with pair (s ∷ t ∷ u ∷ states) zwjf ≡ 3
        → (s.base == b'n' && t.base == b'g' && u.base == b'h') ≡ true
    with_pair pair k = ground (arith, k)

pub parsed-IsOnset :
    (states : List CharState) (zwjf : Bool) (n : ℕ)
    → parse_initial_consonant states zwjf ≡ n
    → n ≤ 3
    → IsOnset zwjf states n
unfolding parse_initial_consonant is_initial_letter at is_d
parsed-IsOnset states zwjf zero e b = inl refl
parsed-IsOnset [] zwjf (suc zero) e b =
    absurd (omega (arith, e, parse_initial_consonant-length [] zwjf))
parsed-IsOnset (s ∷ states) zwjf (suc zero) e b = inr (ground (arith, e))
parsed-IsOnset [] zwjf (suc (suc zero)) e b =
    absurd (omega (arith, e, parse_initial_consonant-length [] zwjf))
parsed-IsOnset (s ∷ []) zwjf (suc (suc zero)) e b =
    absurd (omega (arith, e, parse_initial_consonant-length (s ∷ []) zwjf))
parsed-IsOnset (s ∷ t ∷ states) zwjf (suc (suc zero)) e b =
    inr (pair-is_onset zwjf s.base t.base (parsed_pair s t states zwjf e))
parsed-IsOnset [] zwjf (suc (suc (suc zero))) e b =
    absurd (omega (arith, e, parse_initial_consonant-length [] zwjf))
parsed-IsOnset (s ∷ []) zwjf (suc (suc (suc zero))) e b =
    absurd (omega (arith, e, parse_initial_consonant-length (s ∷ []) zwjf))
parsed-IsOnset (s ∷ t ∷ []) zwjf (suc (suc (suc zero))) e b =
    absurd (omega (arith, e, parse_initial_consonant-length (s ∷ t ∷ []) zwjf))
parsed-IsOnset (s ∷ t ∷ u ∷ states) zwjf (suc (suc (suc zero))) e b =
    inr (triple-is_onset zwjf s.base t.base u.base (parsed_triple s t u states zwjf e))
parsed-IsOnset states zwjf (suc (suc (suc (suc n)))) e b = absurd (omega (arith, b))

pub parse_initial_consonant-IsOnset :
    (states : List CharState) (zwjf : Bool)
    → IsOnset zwjf states (parse_initial_consonant states zwjf)
parse_initial_consonant-IsOnset states zwjf =
    parsed-IsOnset states zwjf (parse_initial_consonant states zwjf) refl
      (parse_initial_consonant-le states zwjf)

pub clashes-agrees :
    (states : List CharState) (n : ℕ)
    → n ≤ 3
    → n ≤ length states
    → clashes states n ≡ false
    → agrees (bases n states) (base_at states n) ≡ true
unfolding clashes at
clashes-agrees states zero b l h = refl
clashes-agrees [] (suc zero) b l h = refl
clashes-agrees (s ∷ states) (suc zero) b l h = ground (arith, h)
clashes-agrees [] (suc (suc zero)) b l h = refl
clashes-agrees (s ∷ []) (suc (suc zero)) b l h = absurd (omega (arith, l))
clashes-agrees (s ∷ t ∷ states) (suc (suc zero)) b l h = ground (arith, h)
clashes-agrees [] (suc (suc (suc zero))) b l h = refl
clashes-agrees (s ∷ []) (suc (suc (suc zero))) b l h = absurd (omega (arith, l))
clashes-agrees (s ∷ t ∷ []) (suc (suc (suc zero))) b l h = absurd (omega (arith, l))
clashes-agrees (s ∷ t ∷ u ∷ states) (suc (suc (suc zero))) b l h = ground (arith, h)
clashes-agrees states (suc (suc (suc (suc n)))) b l h = absurd (omega (arith, b))

pub d-IsOnset :
    (zwjf : Bool) (states : List CharState)
    → (length states == 0) ≡ false
    → is_d (at states 0) ≡ true
    → is_onset zwjf (bases 1 states) ≡ true
unfolding is_d at
d-IsOnset zwjf [] l h = ground (arith, l)
d-IsOnset zwjf (s ∷ states) l h = ground (arith, h)
