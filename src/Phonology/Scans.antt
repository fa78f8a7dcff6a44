-- ===== src/Phonology/Scans.antt =====
-- The scans by index of `Parse` in src/core/engine/Phonotactics.cpp, against runs of characters.
use nexus_key.Base.{
  ℕ, zero, suc, ◌+◌, ◌-◌, ◌≤◌, ◌<◌, ◌≡◌, ◌∙◌, ◌⊎◌, refl, ap, Bool, true, false, not, ◌==◌,
  if◌then◌else◌, Option, none, some, [], ◌∷◌, ◌++◌, Wstring, length, take, drop, all, inl, inr,
  Bool-cases, arith,
}
use nexus_key.Phonology.Lexicon.{is_vowel_char}
use nexus_key.Phonology.Syllable.{char_at, first_vowel, last_vowel, coda_len}

-- A consonant of the text.
abbrev pub is_consonant_char : ℕ → Bool
is_consonant_char c = not (is_vowel_char c)

-- The text begins with a character that passes a test.
abbrev pub begins : (ℕ → Bool) → Wstring → Bool
begins p [] = false
begins p (c ∷ cs) = p c

-- The length of the longest prefix whose characters pass a test.
abbrev pub run : (ℕ → Bool) → Wstring → ℕ
run p [] = 0
run p (c ∷ cs) = let rest = run p cs in if p c then suc rest else 0

pub take-drop : (n : ℕ) (cs : Wstring) → take n cs ++ drop n cs ≡ cs
take-drop zero cs = refl
take-drop (suc n) [] = refl
take-drop (suc n) (c ∷ cs) = ap (λ l. c ∷ l) (take-drop n cs)

pub all-run : (p : ℕ → Bool) (cs : Wstring) → all p (take (run p cs) cs) ≡ true
all-run p [] = refl
all-run p (c ∷ cs) = elim (Bool-cases (p c)) [
  | inl h ↦ rw (h, h) (all-run p cs)
  | inr h ↦ rw h refl
]

pub begins-run : (p : ℕ → Bool) (cs : Wstring) → begins p (drop (run p cs) cs) ≡ false
begins-run p [] = refl
begins-run p (c ∷ cs) = elim (Bool-cases (p c)) [ inl h ↦ rw h (begins-run p cs) | inr h ↦ rw h h ]

-- The loops see the tail of a text as they see the text, one index on.
abbrev pub next_index : Option ℕ → Option ℕ
next_index none = none
next_index (some i) = some (suc i)

pub first_vowel-suc :
    (rounds i c : ℕ) (cs : Wstring)
    → first_vowel rounds (suc i) (c ∷ cs) ≡ next_index (first_vowel rounds i cs)
unfolding first_vowel
first_vowel-suc zero i c cs = refl
first_vowel-suc (suc rounds) i c cs = elim (Bool-cases (is_vowel_char (char_at cs i))) [
  | inl h ↦ rw h refl
  | inr h ↦ rw h (first_vowel-suc rounds (suc i) c cs)
]

pub last_vowel-suc :
    (rounds i last c : ℕ) (cs : Wstring)
    → last_vowel rounds (suc i) (suc last) (c ∷ cs) ≡ suc (last_vowel rounds i last cs)
unfolding last_vowel
last_vowel-suc zero i last c cs = refl
last_vowel-suc (suc rounds) i last c cs = elim (Bool-cases (is_vowel_char (char_at cs i))) [
  | inl h ↦ rw h (last_vowel-suc rounds (suc i) i c cs)
  | inr h ↦ rw h refl
]

pub zero_eq : (n : ℕ) → (0 == suc n) ≡ false
zero_eq n = ground arith

pub suc_eq : (n m : ℕ) → (suc n == suc m) ≡ (n == m)
suc_eq n m = ground arith

pub next_index-if :
    (b : Bool) (n : ℕ)
    → next_index (if b then none else some n) ≡ (if b then none else some (suc n))
next_index-if true n = refl
next_index-if false n = refl

pub first_vowel-run :
    (cs : Wstring)
    → let n = run is_consonant_char cs in
      first_vowel (length cs) 0 cs ≡ (if n == length cs then none else some n)
unfolding first_vowel
first_vowel-run [] = refl
first_vowel-run (c ∷ cs) =
    let n = run is_consonant_char cs in
    elim (Bool-cases (is_vowel_char c)) [
      | inl h ↦ rw (h, zero_eq (length cs)) refl
      | inr h ↦
          rw (h, first_vowel-suc (length cs) 0 c cs, first_vowel-run cs, suc_eq n (length cs))
            (next_index-if (n == length cs) n)
    ]

abbrev pub plus : ℕ → ℕ → ℕ
plus zero i = i
plus (suc n) i = suc (plus n i)

pub plus_lem : (n i : ℕ) → plus n i ≡ n + i
plus_lem zero i = omega arith
plus_lem (suc n) i = omega (arith, plus_lem n i)

pub last_vowel-plus :
    (rounds n i last : ℕ) (cs : Wstring)
    → n ≤ length cs
    → last_vowel rounds (plus n i) (plus n last) cs ≡ plus n (last_vowel rounds i last (drop n cs))
last_vowel-plus rounds zero i last cs h = refl
last_vowel-plus rounds (suc n) i last [] h = absurd (omega (arith, h))
last_vowel-plus rounds (suc n) i last (c ∷ cs) h =
    last_vowel-suc rounds (plus n i) (plus n last) c cs
    ∙ ap suc (last_vowel-plus rounds n i last cs (omega (arith, h)))

pub last_vowel-run :
    (c : ℕ) (cs : Wstring) → last_vowel (length cs) 1 0 (c ∷ cs) ≡ run is_vowel_char cs
unfolding last_vowel
last_vowel-run c [] = refl
last_vowel-run c (d ∷ cs) = elim (Bool-cases (is_vowel_char d)) [
  | inl h ↦ rw h (last_vowel-suc (length cs) 1 0 c (d ∷ cs) ∙ ap suc (last_vowel-run d cs))
  | inr h ↦ rw h refl
]

-- What the loop of the coda takes.
abbrev pub CodaOf : Wstring → ℕ → Type 0
CodaOf rest n =
    (all is_consonant_char (take n rest) ≡ true)
    × (length (take n rest) ≤ 2)
    × ((length (take n rest) ≡ 2) ⊎ (begins is_consonant_char (drop n rest) ≡ false))

-- The loop stops at a vowel, and takes what stands before.
pub coda_len-nil : coda_len 2 0 [] ≡ 0
unfolding coda_len
coda_len-nil = refl

pub coda_len-vowel : (c : ℕ) (cs : Wstring) → is_vowel_char c ≡ true → coda_len 2 0 (c ∷ cs) ≡ 0
unfolding coda_len
coda_len-vowel c cs h = ground (arith, h)

pub coda_len-end : (c : ℕ) → is_vowel_char c ≡ false → coda_len 2 0 (c ∷ []) ≡ 1
unfolding coda_len
coda_len-end c h = ground (arith, h)

pub coda_len-one :
    (c d : ℕ) (cs : Wstring)
    → is_vowel_char c ≡ false
    → is_vowel_char d ≡ true
    → coda_len 2 0 (c ∷ d ∷ cs) ≡ 1
unfolding coda_len
coda_len-one c d cs h k = ground (arith, h, k)

pub coda_len-two :
    (c d : ℕ) (cs : Wstring)
    → is_vowel_char c ≡ false
    → is_vowel_char d ≡ false
    → coda_len 2 0 (c ∷ d ∷ cs) ≡ 2
unfolding coda_len
coda_len-two c d cs h k = ground (arith, h, k)

pub coda_len-CodaOf : (rest : Wstring) → CodaOf rest (coda_len 2 0 rest)
coda_len-CodaOf [] = rw coda_len-nil (refl, omega arith, inr refl)
coda_len-CodaOf (c ∷ []) = elim (Bool-cases (is_vowel_char c)) [
  | inl h ↦ rw (coda_len-vowel c [] h) (refl, omega arith, inr (rw h refl))
  | inr h ↦ rw (coda_len-end c h) (rw h refl, omega arith, inr refl)
]
coda_len-CodaOf (c ∷ d ∷ cs) = elim (Bool-cases (is_vowel_char c)) [
  | inl h ↦ rw (coda_len-vowel c (d ∷ cs) h) (refl, omega arith, inr (rw h refl))
  | inr h ↦ elim (Bool-cases (is_vowel_char d)) [
    | inl k ↦ rw (coda_len-one c d cs h k) (rw h refl, omega arith, inr (rw k refl))
    | inr k ↦ rw (coda_len-two c d cs h k) (rw (h, k) refl, omega arith, inl refl)
  ]
]

-- The text from the first vowel on.
pub vowel_at-run :
    (cs : Wstring)
    → (run is_consonant_char cs == length cs) ≡ false
    → (v : ℕ) × (vs : Wstring) × (drop (run is_consonant_char cs) cs ≡ v ∷ vs)
      × (is_vowel_char v ≡ true)
      × (run is_consonant_char cs < length cs)
vowel_at-run [] h = absurd (ground (arith, h))
vowel_at-run (c ∷ cs) h = elim (Bool-cases (is_vowel_char c)) [
  | inl k ↦ rw k (c, cs, refl, k, omega arith)
  | inr k ↦
      let (v, vs, e, u, l) =
        vowel_at-run cs (ground (arith, k, h, suc_eq (run is_consonant_char cs) (length cs))) in
      rw k (v, vs, e, u, omega (arith, l))
]

pub length-drop : (n : ℕ) (cs : Wstring) → length (drop n cs) ≡ length cs - n
length-drop zero cs = omega arith
length-drop (suc n) [] = omega arith
length-drop (suc n) (c ∷ cs) = omega (arith, length-drop n cs)

pub drop-drop : (n m : ℕ) (cs : Wstring) → drop (plus n m) cs ≡ drop m (drop n cs)
drop-drop zero m cs = refl
drop-drop (suc n) zero [] = refl
drop-drop (suc n) (suc m) [] = refl
drop-drop (suc n) m (c ∷ cs) = drop-drop n m cs

-- The index of the last vowel of the nucleus that begins at an index.
pub last_vowel-vowel :
    (v : ℕ) (vs : Wstring)
    → is_vowel_char v ≡ true
    → last_vowel (suc (length vs)) 0 0 (v ∷ vs) ≡ last_vowel (length vs) 1 0 (v ∷ vs)
unfolding last_vowel
last_vowel-vowel v vs u = rw u refl

pub run-vowel :
    (v : ℕ) (vs : Wstring)
    → is_vowel_char v ≡ true
    → run is_vowel_char (v ∷ vs) ≡ suc (run is_vowel_char vs)
run-vowel v vs u = rw u refl

pub begins-vowel :
    (v : ℕ) (vs : Wstring)
    → is_vowel_char v ≡ true
    → begins is_vowel_char (take (run is_vowel_char (v ∷ vs)) (v ∷ vs)) ≡ true
begins-vowel v vs u = rw (u, u) refl

pub if_true : {b : Bool} (n : ℕ) → b ≡ true → (if b then none else some n) ≡ none
if_true n h = rw h refl

pub if_false : {b : Bool} (n : ℕ) → b ≡ false → (if b then none else some n) ≡ some n
if_false n h = rw h refl

pub last_vowel-from :
    (n v : ℕ) (vs text : Wstring)
    → n ≤ length text
    → drop n text ≡ v ∷ vs
    → is_vowel_char v ≡ true
    → last_vowel (length text - n) n n text ≡ plus n (run is_vowel_char vs)
last_vowel-from n v vs text h e u =
    let k = length vs in
    let rounds : length text - n ≡ suc k = omega (arith, length-drop n text, ap length e) in
    let first : n ≡ plus n 0 = omega (arith, plus_lem n 0) in
    ap (λ r. last_vowel r n n text) rounds
    ∙ ap (λ i. last_vowel (suc k) i i text) first
    ∙ last_vowel-plus (suc k) n 0 0 text h
    ∙ ap (λ l. plus n (last_vowel (suc k) 0 0 l)) e
    ∙ ap (plus n) (last_vowel-vowel v vs u ∙ last_vowel-run v vs)
