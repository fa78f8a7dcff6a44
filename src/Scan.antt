-- ===== src/Scan.antt =====
-- The scans of a buffer for the first or the last element that passes a test, and what they find.
-- The loops of the engine that search by index and break are calls of these.
use nexus_key.Base.{
  ℕ, zero, suc, ◌-◌, ◌≤◌, ◌<◌, ◌≡◌, refl, Bool, true, false, Option, none, some, List, [], ◌∷◌, inl,
  inr, length, get_elem?, Bool-cases, Option-cases, if◌then◌else◌, arith,
}

-- The scan from the right over the indices below a bound.
unfoldable pub find_last_at : (ℕ → Bool) → ℕ → Option ℕ
find_last_at p zero = none
find_last_at p (suc i) = let rest = find_last_at p i in if p i then some i else rest

-- The scan from the left over `rounds` indices from `i` on.
unfoldable pub find_first_at : (ℕ → Bool) → ℕ → ℕ → Option ℕ
find_first_at p zero i = none
find_first_at p (suc rounds) i =
    let rest = find_first_at p rounds (suc i) in if p i then some i else rest

-- The index that the scan finds lies below its bound.
pub find_last_at-bound : (p : ℕ → Bool) (n i : ℕ) → find_last_at p n ≡ some i → i < n
unfolding find_last_at
find_last_at-bound p zero i h = ground arith
find_last_at-bound p (suc n) i h = elim (Bool-cases (p n)) [
  | inl t ↦ ground arith
  | inr f ↦ ground (arith, find_last_at-bound p n i)
]

module _ {ℓ} {A : Type ℓ} where
  -- The scan from the right: the last index, counted from `i`, whose vowel passes a test.
  unfoldable pub find_last : (A → Bool) → ℕ → List A → Option ℕ
  find_last p i [] = none
  find_last p i (v ∷ vs) = elim (find_last p (suc i) vs) [
    | some j ↦ some j
    | none ↦ if p v then some i else none
  ]

  -- The scan from the left.
  unfoldable pub find_first : (A → Bool) → ℕ → List A → Option ℕ
  find_first p i [] = none
  find_first p i (v ∷ vs) = let rest = find_first p (suc i) vs in if p v then some i else rest

  -- The element at a position passes a test.
  abbrev pub Holds : (A → Bool) → List A → ℕ → Type ℓ
  Holds p vs i = (v : A) × (get_elem? vs i ≡ some v) × (p v ≡ true)

  -- No element at a position that satisfies a condition passes a test.
  abbrev pub NoneAt : (ℕ → Type 0) → (A → Bool) → List A → Type ℓ
  NoneAt C p vs = (k : ℕ) (v : A) → C k → get_elem? vs k ≡ some v → p v ≡ false

  abbrev pub Nowhere : (A → Bool) → List A → Type ℓ
  Nowhere = NoneAt (λ k. Unit)

  abbrev pub IsLast : (A → Bool) → List A → ℕ → Type ℓ
  IsLast p vs i = Holds p vs i × NoneAt (λ k. i < k) p vs

  abbrev pub IsFirst : (A → Bool) → List A → ℕ → Type ℓ
  IsFirst p vs i = Holds p vs i × NoneAt (λ k. k < i) p vs

  Nowhere-cons :
      (p : A → Bool) (v : A) (vs : List A) → p v ≡ false → Nowhere p vs → Nowhere p (v ∷ vs)
  Nowhere-cons p v vs h n zero w c e = ground arith
  Nowhere-cons p v vs h n (suc k) w c e = n k w tt e

  pub find_last-none : (p : A → Bool) (i : ℕ) (vs : List A) → find_last p i vs ≡ none → Nowhere p vs
  unfolding find_last
  find_last-none p i [] e = λ k v c g. ground arith
  find_last-none p i (v ∷ vs) e =
      Nowhere-cons p v vs (ground arith) (find_last-none p (suc i) vs (ground arith))

  IsLast-cons :
      (p : A → Bool) (v : A) (vs : List A) (i : ℕ) → IsLast p vs i → IsLast p (v ∷ vs) (suc i)
  IsLast-cons p v vs i h = (h.0, after)
    where
      after : NoneAt (λ k. suc i < k) p (v ∷ vs)
      after zero w c e = absurd (omega arith)
      after (suc k) w c e = h.1 k w (omega arith) e

  IsLast-head :
      (p : A → Bool) (v : A) (vs : List A) → p v ≡ true → Nowhere p vs → IsLast p (v ∷ vs) 0
  IsLast-head p v vs h n = ((v, refl, h), after)
    where
      after : NoneAt (λ k. 0 < k) p (v ∷ vs)
      after zero w c e = absurd (omega arith)
      after (suc k) w c e = n k w tt e

  pub find_last-some :
      (p : A → Bool) (i : ℕ) (vs : List A) (j : ℕ)
      → find_last p i vs ≡ some j
      → (i ≤ j) × IsLast p vs (j - i)
  unfolding find_last
  find_last-some p i [] j e = ground arith
  find_last-some p i (v ∷ vs) j e = elim (Option-cases (find_last p (suc i) vs)) [
    | inl n ↦
        (let h : p v ≡ true = ground arith in
          let e' : j ≡ i = ground arith in
          let z : j - i ≡ 0 = omega arith in
          (omega arith, rw z (IsLast-head p v vs h (find_last-none p (suc i) vs n))))
    | inr (j', f) ↦
        (let ih = find_last-some p (suc i) vs j' f in
          let e' : j' ≡ j = ground arith in
          let z : j - i ≡ suc (j' - suc i) = omega arith in
          (omega arith, rw z (IsLast-cons p v vs (j' - suc i) ih.1)))
  ]

  pub find_first-none :
      (p : A → Bool) (i : ℕ) (vs : List A) → find_first p i vs ≡ none → Nowhere p vs
  unfolding find_first
  find_first-none p i [] e = λ k v c g. ground arith
  find_first-none p i (v ∷ vs) e =
      Nowhere-cons p v vs (ground arith) (find_first-none p (suc i) vs (ground arith))

  IsFirst-cons :
      (p : A → Bool) (v : A) (vs : List A) (i : ℕ)
      → p v ≡ false
      → IsFirst p vs i
      → IsFirst p (v ∷ vs) (suc i)
  IsFirst-cons p v vs i n h = (h.0, before)
    where
      before : NoneAt (λ k. k < suc i) p (v ∷ vs)
      before zero w c e = ground arith
      before (suc k) w c e = h.1 k w (omega arith) e

  pub find_first-some :
      (p : A → Bool) (i : ℕ) (vs : List A) (j : ℕ)
      → find_first p i vs ≡ some j
      → (i ≤ j) × IsFirst p vs (j - i)
  unfolding find_first
  find_first-some p i [] j e = ground arith
  find_first-some p i (v ∷ vs) j e = elim (Bool-cases (p v)) [
    | inl h ↦
        (let e' : j ≡ i = ground arith in
          let z : j - i ≡ 0 = omega arith in
          (omega arith, rw z ((v, refl, h), λ k w c g. absurd (omega arith))))
    | inr n ↦
        (let ih = find_first-some p (suc i) vs j (ground arith) in
          let z : j - i ≡ suc (j - suc i) = omega arith in
          (omega arith, rw z (IsFirst-cons p v vs (j - suc i) n ih.1)))
  ]

  pub Holds-lt : (p : A → Bool) (vs : List A) (i : ℕ) → Holds p vs i → i < length vs
  Holds-lt p [] i h = ground arith
  Holds-lt p (v ∷ vs) zero h = omega arith
  Holds-lt p (v ∷ vs) (suc i) h = omega (arith, Holds-lt p vs i h)
