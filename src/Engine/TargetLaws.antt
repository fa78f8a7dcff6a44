-- ===== src/Engine/TargetLaws.antt =====
-- What `FindToneTarget` finds.
use nexus_key.Base.{
  ℕ, zero, suc, ◌+◌, ◌≤◌, ◌<◌, ◌≡◌, subst, Bool, true, false, ◌==◌, if◌then◌else◌, Option, none,
  some, List, ◌∷◌, length, get_elem?, drop, map, inl, inr, Bool-cases, Option-cases, arith,
}
use nexus_key.State.{CharState, is_vowel_at, at}
use nexus_key.Letters.{Ctype, compose}
use nexus_key.English.{is_cluster_consonant}
use nexus_key.Phonology.TonePosition.{tone_position}
use nexus_key.Engine.ToneTarget.{
  Nucleus, nucleus_from, nucleus, vowel_cap, canonical, last_index, coda_from, index_at,
  find_tone_target,
}

-- An index in range whose state is a vowel, and no vowel that stands for a consonant.
abbrev pub IsTarget : List CharState → ℕ → Type 0
IsTarget states i =
    (i < length states) × (is_vowel_at states i ≡ true) × (is_cluster_consonant states i ≡ false)

abbrev AllTargets : List CharState → List Nucleus → Type 0
AllTargets states ns = (v : ℕ) (n : Nucleus) → get_elem? ns v ≡ some n → IsTarget states n.index

AllTargets-cons :
    (states : List CharState) (n : Nucleus) (ns : List Nucleus)
    → IsTarget states n.index
    → AllTargets states ns
    → AllTargets states (n ∷ ns)
AllTargets-cons states n ns h hs zero m e = ground arith
AllTargets-cons states n ns h hs (suc v) m e = hs v m e

nucleus_from-AllTargets :
    (ct : Ctype) (states : List CharState) (rounds i room : ℕ)
    → i + rounds ≤ length states
    → AllTargets states (nucleus_from ct states rounds i room)
unfolding nucleus_from
nucleus_from-AllTargets ct states zero i room h = λ v n e. ground arith
nucleus_from-AllTargets ct states (suc rounds) i zero h = λ v n e. ground arith
nucleus_from-AllTargets ct states (suc rounds) i (suc room) h =
    let skip = nucleus_from-AllTargets ct states rounds (suc i) (suc room) (omega arith) in
    let keep = nucleus_from-AllTargets ct states rounds (suc i) room (omega arith) in
    elim (Bool-cases (is_vowel_at states i)) [
      | inr n ↦ rw n skip
      | inl y ↦ elim (Bool-cases (is_cluster_consonant states i)) [
        | inl c ↦ rw (y, c) skip
        | inr c ↦ elim (Bool-cases (compose ct (canonical (at states i)) == 0)) [
          | inl z ↦ rw (y, c, z) skip
          | inr z ↦ rw (y, c, z) (AllTargets-cons states _ _ (omega arith, y, c) keep)
        ]
      ]
    ]

index_at-IsTarget :
    (states : List CharState) (ns : List Nucleus) (o : Option ℕ) (i : ℕ)
    → AllTargets states ns
    → index_at ns o ≡ some i
    → IsTarget states i
index_at-IsTarget states ns none i h e = ground arith
index_at-IsTarget states ns (some v) i h e = elim (Option-cases (get_elem? ns v)) [
  | inl n ↦ ground arith
  | inr (m, g) ↦ (let e' : m.index ≡ i = ground arith in subst (IsTarget states) e' (h v m g))
]

-- A target that `FindToneTarget` returns is an index of the buffer, and its state is a vowel that
-- does not belong to the consonant cluster `qu` or `gi`.
pub find_tone_target-IsTarget :
    (ct : Ctype) (modern : Bool) (states : List CharState) (i : ℕ)
    → find_tone_target ct modern states ≡ some i
    → IsTarget states i
unfolding find_tone_target nucleus
find_tone_target-IsTarget ct modern states i e =
    elim (Bool-cases (length (nucleus ct states) == 0)) [
      | inl z ↦ ground arith
      | inr z ↦
          index_at-IsTarget states (nucleus ct states) _ i
            (nucleus_from-AllTargets ct states (length states) 0 vowel_cap (omega arith))
            (subst
              (λ b.
                (if b
                  then none
                  else index_at (nucleus ct states) (
                      tone_position (map (λ n. n.letter) (nucleus ct states))
                        (coda_from ct vowel_cap
                          (drop (suc (last_index 0 (nucleus ct states))) states))
                        modern))
                ≡ some i)
              z e)
    ]
