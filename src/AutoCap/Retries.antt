-- ===== src/AutoCap/Retries.antt =====
-- The loop of `ReadAnchorSeqlock` of src/core/ipc/SharedState.h ends, whatever the writer does.
use nexus_key.Base.{
  ℕ, suc, ◌+◌, ◌-◌, ◌*◌, ◌≤◌, ◌<◌, ◌≡◌, refl, ◌∙◌, ◌⊎◌, sym, ap, subst, Bool, false, ◌==◌, ==_iff,
  Bool-cases, inl, inr, arith,
}
use nexus_key.AutoCap.Seqlock.{
  field_count, Versions, Writer, stable, writing, Reader, trying, copying, returned, Shared, Step,
  begin_write, write_field, end_write, see_writing, see_stable, copy_field, compare, give_up, Reach,
  started, onward, fresh, verdict, generation,
}

-- A bound of the reader's own steps from here on.
abbrev pub left : Reader → ℕ
left (trying retry) = 23 * (3 - retry) + 1
left (copying retry n k) = 23 * (2 - retry) + (22 - k) + 1
left (returned result) = 0

abbrev IsInRange : Reader → Type 0
IsInRange (trying retry) = retry ≤ 3
IsInRange (copying retry n k) = (retry < 3) × (k ≤ field_count)
IsInRange (returned result) = Unit

-- One step of the reader: it stays in range and has fewer steps left.
abbrev Onward : Reader → Reader → Type 0
Onward r r' = IsInRange r' × (left r' < left r)

retry_lem : (retry : ℕ) → retry < 3 → Onward (trying retry) (trying (suc retry))
retry_lem retry h = (omega (arith, h), omega (arith, h))

begin_lem : (retry n : ℕ) → retry < 3 → Onward (trying retry) (copying retry n 0)
begin_lem retry n h = ((h, omega arith), omega (arith, h))

field_lem :
    (retry n k : ℕ)
    → IsInRange (copying retry n k)
    → k < field_count
    → Onward (copying retry n k) (copying retry n (suc k))
field_lem retry n k i h = ((i.0, omega (arith, h)), omega (arith, h))

verdict_lem :
    (w : Writer) (retry n : ℕ)
    → retry < 3
    → Onward (copying retry n field_count) (verdict w retry n)
verdict_lem w retry n h = elim (Bool-cases (generation w == generation (stable n))) [
  | inl t ↦ rw t (_, omega (arith, h))
  | inr f ↦ rw f (omega (arith, h), omega (arith, h))
]

below : (k m : ℕ) → k ≤ m → (k == m) ≡ false → k < m
below k m h f = ground arith

lowered : {A : Type 0} (r r' : Reader) → A ⊎ Onward r r' → A ⊎ (left r' < left r)
lowered r r' (inl a) = inl a
lowered r r' (inr o) = inr o.1

module _ (versions : Versions) where
  Step-Onward :
      {s u : Shared}
      → Step versions s u
      → IsInRange s.reader
      → (u.reader ≡ s.reader) ⊎ Onward s.reader u.reader
  Step-Onward (begin_write s n w) i = inl refl
  Step-Onward (write_field s n j w h) i = inl refl
  Step-Onward (end_write s n w) i = inl refl
  Step-Onward (see_writing s retry n j r h w) i =
      inr (subst (λ v. Onward v (trying (suc retry))) (sym r) (retry_lem retry h))
  Step-Onward (see_stable s retry n r h w) i =
      inr (subst (λ v. Onward v (copying retry n 0)) (sym r) (begin_lem retry n h))
  Step-Onward (copy_field s retry n k r h) i = inr (
      subst (λ v. Onward v (copying retry n (suc k))) (sym r)
        (field_lem retry n k (subst IsInRange r i) h))
  Step-Onward (compare s retry n r) i = inr (
      subst (λ v. Onward v (verdict s.writer retry n)) (sym r)
        (verdict_lem s.writer retry n (subst IsInRange r i).0))
  Step-Onward (give_up s r) i =
      inr (subst (λ v. Onward v (returned false)) (sym r) (_, omega arith))

  Reach-IsInRange : {s : Shared} → Reach versions s → IsInRange s.reader
  Reach-IsInRange started = omega arith
  Reach-IsInRange (onward {s} {u} r t) = elim (Step-Onward t (Reach-IsInRange r)) [
    | inl e ↦ subst IsInRange (sym e) (Reach-IsInRange r)
    | inr o ↦ o.0
  ]

  -- The reader has returned, or can take a step of its own now.
  abbrev CanReturn : Shared → Reader → Type 0
  CanReturn s r =
      ((result : Bool) × (s.reader ≡ returned result))
      ⊎ ((u : Shared) × Step versions s u × (left u.reader < left r))

  can_try :
      (s : Shared) (retry : ℕ) (w : Writer)
      → s.reader ≡ trying retry
      → s.writer ≡ w
      → retry < 3
      → CanReturn s (trying retry)
  can_try s retry (stable n) r e h = inr (_, see_stable s retry n r h e, (begin_lem retry n h).1)
  can_try s retry (writing n j) r e h = inr (_, see_writing s retry n j r h e, omega (arith, h))

  can_return : (s : Shared) (r : Reader) → s.reader ≡ r → IsInRange r → CanReturn s r
  can_return s (trying retry) r i = elim (Bool-cases (retry == 3)) [
    | inl t ↦ inr (_, give_up s (r ∙ ap trying ((==_iff retry 3).0 t)), omega arith)
    | inr f ↦ can_try s retry s.writer r refl (below retry 3 i f)
  ]
  can_return s (copying retry n k) r i = elim (Bool-cases (k == field_count)) [
    | inl t ↦
        let e = (==_iff k field_count).0 t in
        inr (
          _,
          compare s retry n (r ∙ ap (copying retry n) e),
          subst (λ j. left (verdict s.writer retry n) < left (copying retry n j)) (sym e)
              ((verdict_lem s.writer retry n i.0).1),
        )
    | inr f ↦
        let h = below k field_count i.1 f in
        inr (_, copy_field s retry n k r h, (field_lem retry n k i h).1)
  ]
  can_return s (returned result) r i = inl (result, r)

-- In every system that a run reaches, a step of the writer leaves the reader where it is, a step of
-- the reader lowers the number of its steps that are left, which is 70 in the fresh system, and as
-- long as the reader has not returned it can take such a step, wherever the writer stands.
pub Reach-CanReturn :
    (versions : Versions) (s : Shared)
    → Reach versions s
    → (left ((fresh versions).reader) ≡ 70)
      × ((u : Shared) → Step versions s u → (u.reader ≡ s.reader) ⊎ (left u.reader < left s.reader))
      × (((result : Bool) × (s.reader ≡ returned result))
          ⊎ ((u : Shared) × Step versions s u × (left u.reader < left s.reader)))
Reach-CanReturn versions s reach =
    let i = Reach-IsInRange versions reach in
    (
      refl,
      λ u t. lowered s.reader u.reader (Step-Onward versions t i),
      can_return versions s s.reader refl i,
    )
