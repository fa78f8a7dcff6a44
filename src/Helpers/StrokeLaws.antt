-- ===== src/Helpers/StrokeLaws.antt =====
-- What `FindStrokeDTarget` finds.
use nexus_key.Base.{
  ℕ, zero, suc, ◌-◌, ◌≤◌, ◌<◌, ◌≡◌, subst, true, false, ltb, some, List, inl, inr, Bool-cases,
  Option-cases, arith,
}
use nexus_key.Scan.{find_last, find_last-some, IsLast}
use nexus_key.State.{CharState, is_d, at}
use nexus_key.Helpers.Stroke.{cluster_start, is_after_vowel, find_stroke_d_target}

-- From `first` up to `i` all states are d, and the one before `first`, if any, is none.
pub record IsCluster (states : List CharState) (i first : ℕ) : Type 0 where
  pub first_le : first ≤ i
  pub all_d : (j : ℕ) → first ≤ j → j < i → is_d (at states j) ≡ true
  pub maximal : (j : ℕ) → suc j ≡ first → is_d (at states j) ≡ false

IsCluster-suc :
    (states : List CharState) (i first : ℕ)
    → IsCluster states i first
    → is_d (at states i) ≡ true
    → IsCluster states (suc i) first
IsCluster-suc states i first c h = record {
  first_le = omega (arith, c.first_le);
  all_d = inside;
  maximal = c.maximal;
}
  where
    inside : (j : ℕ) → first ≤ j → j < suc i → is_d (at states j) ≡ true
    inside j l g = elim (Bool-cases (ltb j i)) [
      | inl lt ↦ c.all_d j l (ground arith)
      | inr ge ↦ (let e : i ≡ j = ground arith in subst (λ k. is_d (at states k) ≡ true) e h)
    ]

cluster_start-IsCluster :
    (states : List CharState) (i : ℕ) → IsCluster states i (cluster_start states i)
unfolding cluster_start
cluster_start-IsCluster states zero = record {
  first_le = omega arith;
  all_d = λ j l g. absurd (omega arith);
  maximal = λ j e. absurd (omega arith);
}
cluster_start-IsCluster states (suc i) =
    let ih = cluster_start-IsCluster states i in
    elim (Bool-cases (is_d (at states i))) [
      | inl h ↦ rw h (IsCluster-suc states i (cluster_start states i) ih h)
      | inr h ↦ rw h (record {
        first_le = omega arith;
        all_d = λ j l g. absurd (omega arith);
        maximal = λ j e. at_same j e h;
      })
    ]
  where
    at_same : (j : ℕ) → suc j ≡ suc i → is_d (at states i) ≡ false → is_d (at states j) ≡ false
    at_same j e h = let e' : i ≡ j = omega arith in subst (λ k. is_d (at states k) ≡ false) e' h

-- The target is the last d of the buffer, and the run of d's that ends there does not follow a vowel.
pub find_stroke_d_target-IsLast :
    (states : List CharState) (d : ℕ)
    → find_stroke_d_target states ≡ some d
    → (first : ℕ) × IsLast is_d states d
      × IsCluster states d first
      × (is_after_vowel states first ≡ false)
unfolding find_stroke_d_target
find_stroke_d_target-IsLast states d e = elim (Option-cases (find_last is_d 0 states)) [
  | inl n ↦ ground arith
  | inr (j, f) ↦
      (let same : j ≡ d = ground arith in
        let free : is_after_vowel states (cluster_start states j) ≡ false = ground arith in
        let same0 : j - 0 ≡ d = omega arith in
        let last = find_last-some is_d 0 states j f in
        (
          cluster_start states d,
          subst (IsLast is_d states) same0 last.1,
          cluster_start-IsCluster states d,
          subst (λ k. is_after_vowel states (cluster_start states k) ≡ false) same free,
        ))
]
