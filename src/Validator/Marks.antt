-- ===== src/Validator/Marks.antt =====
-- Tones and modifiers of a buffer that is not found `Invalid`.
use nexus_key.Base.{
  subst, ℕ, zero, suc, ◌≡◌, ◌≢◌, refl, ap, ◌∙◌, inl, inr, Bool, true, false, ◌||◌, none, some, List,
  [], ◌∷◌, Bool-cases, Option-cases, arith,
}
use nexus_key.State.{CharState, is_vowel, is_vowel_base, has_modifier, has_tone, at}
use nexus_key.Validator.Decomposition.{invalid}
use nexus_key.Validator.Syllable.{
  Marks, scan_marks, check_tone_mod_invariant, validate_syllable_state,
}

-- The state at `i` is a vowel with a tone; with a modifier.
abbrev pub IsTonedVowel : List CharState → ℕ → Type 0
IsTonedVowel states i = (is_vowel (at states i) ≡ true) × (has_tone (at states i) ≡ true)

abbrev pub IsModifiedVowel : List CharState → ℕ → Type 0
IsModifiedVowel states i = (is_vowel (at states i) ≡ true) × (has_modifier (at states i) ≡ true)

abbrev seen : Marks → CharState → Marks
seen m s = record m { any_mod = m.any_mod || has_modifier s }

-- What a scan that ends leaves, for the marks `m` that it begins with and `m'` that it ends with.
record Scanned (m m' : Marks) (states : List CharState) : Type 0 where
  kept : (t : CharState) → m.toned ≡ some t → m'.toned ≡ some t
  full : (t : CharState) → m.toned ≡ some t → (i : ℕ) → IsTonedVowel states i → ⊥
  found : (i : ℕ) → IsTonedVowel states i → m'.toned ≡ some (at states i)
  unique : (i j : ℕ) → IsTonedVowel states i → IsTonedVowel states j → i ≡ j
  kept_mod : m.any_mod ≡ true → m'.any_mod ≡ true
  mods : (i : ℕ) → IsModifiedVowel states i → m'.any_mod ≡ true

not-IsTonedVowel-nil : (i : ℕ) → IsTonedVowel [] i → ⊥
unfolding at is_vowel is_vowel_base
not-IsTonedVowel-nil i v = cc (v.0)

Scanned-nil : (m : Marks) → Scanned m m []
unfolding at is_vowel is_vowel_base
Scanned-nil m = record {
  kept = λ t e. e;
  full = λ t e i v. not-IsTonedVowel-nil i v;
  found = λ i v. absurd (not-IsTonedVowel-nil i v);
  unique = λ i j v w. absurd (not-IsTonedVowel-nil i v);
  kept_mod = λ h. h;
  mods = λ i v. cc (v.0);
}

module _ (m m' : Marks) (s : CharState) (states : List CharState) where
  -- A state that is no toned vowel, after which the marks are `k`.
  Scanned-untoned :
      (k : Marks)
      → k.toned ≡ m.toned
      → (m.any_mod ≡ true → k.any_mod ≡ true)
      → (IsModifiedVowel (s ∷ states) 0 → k.any_mod ≡ true)
      → (IsTonedVowel (s ∷ states) 0 → ⊥)
      → Scanned k m' states
      → Scanned m m' (s ∷ states)
  unfolding at
  Scanned-untoned k e a b n r = record {
    kept = λ t h. r.kept t (e ∙ h);
    full = λ t h. elim [ zero ↦ n | suc i ↦ r.full t (e ∙ h) i ];
    found = elim [ zero ↦ λ v. absurd (n v) | suc i ↦ r.found i ];
    unique = elim [
      | zero ↦ λ j v w. absurd (n v)
      | suc i ↦ elim [ zero ↦ λ v w. absurd (n w) | suc j ↦ λ v w. ap suc (r.unique i j v w) ]
    ];
    kept_mod = λ h. r.kept_mod (a h);
    mods = elim [ zero ↦ λ v. r.kept_mod (b v) | suc i ↦ r.mods i ];
  }

  -- The first toned vowel.
  Scanned-first :
      (k : Marks)
      → m.toned ≡ none
      → k.toned ≡ some s
      → (m.any_mod ≡ true → k.any_mod ≡ true)
      → (IsModifiedVowel (s ∷ states) 0 → k.any_mod ≡ true)
      → Scanned k m' states
      → Scanned m m' (s ∷ states)
  unfolding at
  Scanned-first k o e a b r = record {
    kept = λ t h. ground arith;
    full = λ t h. ground arith;
    found = elim [ zero ↦ λ v. r.kept s e | suc i ↦ λ v. absurd (r.full s e i v) ];
    unique = elim [
      | zero ↦ elim [ zero ↦ λ v w. refl | suc j ↦ λ v w. absurd (r.full s e j w) ]
      | suc i ↦ λ j v w. absurd (r.full s e i v)
    ];
    kept_mod = λ h. r.kept_mod (a h);
    mods = elim [ zero ↦ λ v. r.kept_mod (b v) | suc i ↦ r.mods i ];
  }

scan_marks-Scanned :
    (m m' : Marks) (states : List CharState) → scan_marks m states ≡ some m' → Scanned m m' states
unfolding scan_marks at
scan_marks-Scanned m m' [] h =
    let e : m ≡ m' = ground arith in subst (λ k. Scanned m k []) e (Scanned-nil m)
scan_marks-Scanned m m' (s ∷ states) h = elim (Bool-cases (is_vowel s)) [
  | inr c ↦
      Scanned-untoned m m' s states m refl (λ a. a) (λ v. ground arith) (λ v. ground arith)
        (scan_marks-Scanned m m' states (ground arith))
  | inl v ↦ elim (Bool-cases (has_tone s)) [
    | inr u ↦
        Scanned-untoned m m' s states (seen m s) refl (λ a. ground arith) (λ v. ground arith)
          (λ w. ground arith) (scan_marks-Scanned (seen m s) m' states (ground arith))
    | inl t ↦ elim (Option-cases m.toned) [
      | inr (x, o) ↦ absurd (ground arith)
      | inl o ↦
          Scanned-first m m' s states (record (seen m s) { toned = some s }) o refl
            (λ a. ground arith) (λ v. ground arith)
            (scan_marks-Scanned (record (seen m s) { toned = some s }) m' states (ground arith))
    ]
  ]
]

check_tone_mod_invariant-true :
    (states : List CharState)
    → check_tone_mod_invariant states ≡ true
    → (m : Marks) × Scanned (record { any_mod = false; toned = none }) m states
      × ((t : CharState) → m.toned ≡ some t → m.any_mod ≡ true → has_modifier t ≡ true)
unfolding check_tone_mod_invariant
check_tone_mod_invariant-true states h =
    elim (Option-cases (scan_marks (record { any_mod = false; toned = none }) states)) [
      | inl n ↦ absurd (ground arith)
      | inr (m, e) ↦ (m, scan_marks-Scanned _ m states e, λ t o a. ground arith)
    ]

validate_syllable_state-marks :
    (states : List CharState) (zwjf : Bool)
    → validate_syllable_state states zwjf ≢ invalid
    → ((i j : ℕ) → IsTonedVowel states i → IsTonedVowel states j → i ≡ j)
      × ((i j : ℕ)
          → IsTonedVowel states i
          → IsModifiedVowel states j
          → has_modifier (at states i) ≡ true)
unfolding validate_syllable_state
validate_syllable_state-marks states zwjf h =
    let c : check_tone_mod_invariant states ≡ true = ground arith in
    let (m, r, k) = check_tone_mod_invariant-true states c in
    (r.unique, λ i j v w. k (at states i) (r.found i v) (r.mods j w))

-- A buffer that is not found `Invalid` has at most one toned vowel: any two toned vowels stand at the
-- same position.
pub validate_syllable_state-one_tone :
    (states : List CharState) (zwjf : Bool) (i j : ℕ)
    → validate_syllable_state states zwjf ≢ invalid
    → IsTonedVowel states i
    → IsTonedVowel states j
    → i ≡ j
validate_syllable_state-one_tone states zwjf i j h =
    (validate_syllable_state-marks states zwjf h).0 i j

-- If a vowel of a buffer that is not found `Invalid` has a modifier, then a toned vowel of the buffer
-- has one.
pub validate_syllable_state-marked_tone :
    (states : List CharState) (zwjf : Bool) (i j : ℕ)
    → validate_syllable_state states zwjf ≢ invalid
    → IsTonedVowel states i
    → IsModifiedVowel states j
    → has_modifier (at states i) ≡ true
validate_syllable_state-marked_tone states zwjf i j h =
    (validate_syllable_state-marks states zwjf h).1 i j
