-- ===== src/AutoCap/Seqlock.antt =====
-- The sequence lock of the anchor: `WriteAnchorSeqlock` and `ReadAnchorSeqlock` of
-- src/core/ipc/SharedState.h, one writer and one reader that step in any order. The fields behind the
-- generation, the five flags and lengths and the sixteen characters, are numbered. The fences keep
-- the steps of each side in their order.
use nexus_key.Base.{
  ℕ, suc, ◌+◌, ◌*◌, ◌%◌, ◌^◌, ◌≤◌, ◌<◌, ◌≡◌, ◌∙◌, refl, sym, ap, Bool, true, false, ◌==◌, ==_iff,
  ltb, subst, if◌then◌else◌, Bool-cases, inl, inr, arith,
}

abbrev pub field_count : ℕ
field_count = 21

-- The n-th value that is published, by its fields.
abbrev pub Versions : Type 0
Versions = ℕ → ℕ → ℕ

-- The writer after a number of publications, or within the next one with some fields written.
pub data Writer : Type 0 where
  stable : ℕ → Writer
  writing : ℕ → ℕ → Writer

-- The reader before a try of its loop; within one, with the generation it read, that of a number of
-- publications, and some fields copied; and with its result.
pub data Reader : Type 0 where
  trying : ℕ → Reader
  copying : ℕ → ℕ → ℕ → Reader
  returned : Bool → Reader

pub record Shared : Type 0 where
  pub fields : ℕ → ℕ
  pub writer : Writer
  pub reader : Reader
  pub copy : ℕ → ℕ

-- How often the generation has been raised.
abbrev pub bumps : Writer → ℕ
bumps (stable n) = 2 * n
bumps (writing n j) = 2 * n + 1

-- `generation`, in 32 bits.
abbrev pub generation : Writer → ℕ
generation w = bumps w % 2 ^ 32

abbrev pub put : ℕ → ℕ → (ℕ → ℕ) → ℕ → ℕ
put i v fields k = if i == k then v else fields k

-- The generation is read again: the copy stands when it has not changed.
abbrev pub verdict : Writer → ℕ → ℕ → Reader
verdict w retry n =
    if generation w == generation (stable n) then returned true else trying (suc retry)

pub data Step (versions : Versions) : Shared → Shared → Type 0 where
  begin_write :
      (s : Shared) (n : ℕ)
      → s.writer ≡ stable n
      → Step versions s (record s { writer = writing n 0 })
  write_field :
      (s : Shared) (n j : ℕ)
      → s.writer ≡ writing n j
      → j < field_count
      → Step versions s
          (record s { writer = writing n (suc j); fields = put j (versions (suc n) j) s.fields })
  end_write :
      (s : Shared) (n : ℕ)
      → s.writer ≡ writing n field_count
      → Step versions s (record s { writer = stable (suc n) })
  see_writing :
      (s : Shared) (retry n j : ℕ)
      → s.reader ≡ trying retry
      → retry < 3
      → s.writer ≡ writing n j
      → Step versions s (record s { reader = trying (suc retry) })
  see_stable :
      (s : Shared) (retry n : ℕ)
      → s.reader ≡ trying retry
      → retry < 3
      → s.writer ≡ stable n
      → Step versions s (record s { reader = copying retry n 0 })
  copy_field :
      (s : Shared) (retry n k : ℕ)
      → s.reader ≡ copying retry n k
      → k < field_count
      → Step versions s
          (record s { reader = copying retry n (suc k); copy = put k (s.fields k) s.copy })
  compare :
      (s : Shared) (retry n : ℕ)
      → s.reader ≡ copying retry n field_count
      → Step versions s (record s { reader = verdict s.writer retry n })
  give_up :
      (s : Shared) → s.reader ≡ trying 3 → Step versions s (record s { reader = returned false })

-- Before any publication the memory is the version of number 0.
abbrev pub fresh : Versions → Shared
fresh versions = record { fields = versions 0; writer = stable 0; reader = trying 0; copy = λ i. 0 }

pub data Reach (versions : Versions) : Shared → Type 0 where
  started : Reach versions (fresh versions)
  onward : {s u : Shared} → Reach versions s → Step versions s u → Reach versions u

module _ (versions : Versions) where
  -- What the memory holds.
  abbrev content : Writer → ℕ → ℕ
  content (stable n) i = versions n i
  content (writing n j) i = if ltb i j then versions (suc n) i else versions n i

  -- What the reader has copied, as long as no publication has begun since it read the generation.
  abbrev IsCopying : Reader → Writer → (ℕ → ℕ) → Type 0
  IsCopying (trying retry) w copy = Unit
  IsCopying (returned result) w copy = Unit
  IsCopying (copying retry n k) w copy =
      (2 * n ≤ bumps w) × (w ≡ stable n → (i : ℕ) → i < k → copy i ≡ versions n i)

  record IsConsistent (s : Shared) : Type 0 where
    held : (i : ℕ) → i < field_count → s.fields i ≡ content s.writer i
    copied : IsCopying s.reader s.writer s.copy

  -- The writer goes on, and is not where the reader could take what it copies for settled.
  later :
      (r : Reader) (w w' : Writer) (copy : ℕ → ℕ)
      → bumps w ≤ bumps w'
      → ((n : ℕ) → 2 * n ≤ bumps w → ¬ w' ≡ stable n)
      → IsCopying r w copy
      → IsCopying r w' copy
  later (trying retry) w w' copy h not c = _
  later (returned result) w w' copy h not c = _
  later (copying retry n k) w w' copy h not c = (omega (arith, h, c.0), λ e. absurd (not n c.0 e))

  content_begin : (n i : ℕ) → content (stable n) i ≡ content (writing n 0) i
  content_begin n i = ground arith

  content_end :
      (n i : ℕ) → i < field_count → content (writing n field_count) i ≡ content (stable (suc n)) i
  content_end n i h = ground arith

  content_write :
      (n j i : ℕ)
      → put j (versions (suc n) j) (content (writing n j)) i ≡ content (writing n (suc j)) i
  content_write n j i = ground arith

  put_cong : (j v i : ℕ) (f g : ℕ → ℕ) → f i ≡ g i → put j v f i ≡ put j v g i
  put_cong j v i f g e = ground arith

  begin_write-IsConsistent :
      (s : Shared) (n : ℕ)
      → s.writer ≡ stable n
      → IsConsistent s
      → IsConsistent (record s { writer = writing n 0 })
  begin_write-IsConsistent s n w c = record {
    held = λ i h. c.held i h ∙ ap (λ v. content v i) w ∙ content_begin n i;
    copied =
        later s.reader s.writer (writing n 0) s.copy (omega (arith, ap bumps w))
          (λ m h e. omega (arith, ap bumps e)) c.copied;
  }

  write_field-IsConsistent :
      (s : Shared) (n j : ℕ)
      → s.writer ≡ writing n j
      → IsConsistent s
      → IsConsistent
          (record s { writer = writing n (suc j); fields = put j (versions (suc n) j) s.fields })
  write_field-IsConsistent s n j w c = record {
    held = λ i h.
        put_cong j (versions (suc n) j) i s.fields (content (writing n j))
          (c.held i h ∙ ap (λ v. content v i) w)
        ∙ content_write n j i;
    copied =
        later s.reader s.writer (writing n (suc j)) s.copy (omega (arith, ap bumps w))
          (λ m h e. omega (arith, ap bumps e)) c.copied;
  }

  end_write-IsConsistent :
      (s : Shared) (n : ℕ)
      → s.writer ≡ writing n field_count
      → IsConsistent s
      → IsConsistent (record s { writer = stable (suc n) })
  end_write-IsConsistent s n w c = record {
    held = λ i h. c.held i h ∙ ap (λ v. content v i) w ∙ content_end n i h;
    copied =
        later s.reader s.writer (stable (suc n)) s.copy (omega (arith, ap bumps w))
          (λ m h e. omega (arith, h, ap bumps w, ap bumps e)) c.copied;
  }

  next_below : {k i : ℕ} → (k == i) ≡ false → i < suc k → i < k
  next_below f h = ground arith

  -- A further field is copied.
  copied_next :
      (n k i v : ℕ) (copy : ℕ → ℕ)
      → v ≡ versions n k
      → (i < k → copy i ≡ versions n i)
      → i < suc k
      → put k v copy i ≡ versions n i
  copied_next n k i v copy e before h = elim (Bool-cases (k == i)) [
    | inl t ↦ rw t (e ∙ ap (versions n) ((==_iff k i).0 t))
    | inr f ↦ rw f (before (next_below f h))
  ]

  copy_field-IsConsistent :
      (s : Shared) (retry n k : ℕ)
      → s.reader ≡ copying retry n k
      → k < field_count
      → IsConsistent s
      → IsConsistent
          (record s { reader = copying retry n (suc k); copy = put k (s.fields k) s.copy })
  copy_field-IsConsistent s retry n k r h c =
      let so = subst (λ v. IsCopying v s.writer s.copy) r c.copied in
      record {
        held = c.held;
        copied = (
          so.0,
          λ e i l.
              copied_next n k i (s.fields k) s.copy (c.held k h ∙ ap (λ v. content v k) e)
                (so.1 e i) l,
        );
      }

  verdict-IsCopying :
      (w : Writer) (copy : ℕ → ℕ) (retry n : ℕ) → IsCopying (verdict w retry n) w copy
  verdict-IsCopying w copy retry n = elim (Bool-cases (generation w == generation (stable n))) [
    | inl t ↦ rw t _
    | inr f ↦ rw f _
  ]

  Step-IsConsistent : {s u : Shared} → Step versions s u → IsConsistent s → IsConsistent u
  Step-IsConsistent (begin_write s n w) c = begin_write-IsConsistent s n w c
  Step-IsConsistent (write_field s n j w h) c = write_field-IsConsistent s n j w c
  Step-IsConsistent (end_write s n w) c = end_write-IsConsistent s n w c
  Step-IsConsistent (see_writing s retry n j r h w) c = record { held = c.held; copied = _ }
  Step-IsConsistent (see_stable s retry n r h w) c = record {
    held = c.held;
    copied = (omega (arith, ap bumps w), λ e i h. absurd (omega (arith, h)));
  }
  Step-IsConsistent (copy_field s retry n k r h) c = copy_field-IsConsistent s retry n k r h c
  Step-IsConsistent (compare s retry n r) c = record {
    held = c.held;
    copied = verdict-IsCopying s.writer s.copy retry n;
  }
  Step-IsConsistent (give_up s r) c = record { held = c.held; copied = _ }

  Reach-IsConsistent : {s : Shared} → Reach versions s → IsConsistent s
  Reach-IsConsistent started = record { held = λ i h. refl; copied = _ }
  Reach-IsConsistent (onward r t) = Step-IsConsistent t (Reach-IsConsistent r)

-- An even number of raises is that of a writer outside a publication.
bumps_even : (w : Writer) (n : ℕ) → bumps w ≡ 2 * n → w ≡ stable n
bumps_even (stable m) n e = ap stable (omega (arith, e))
bumps_even (writing m j) n e = absurd (omega (arith, e))

returned_lem : (n : ℕ) → ¬ trying n ≡ returned true
returned_lem n e = cc

verdict_refused :
    (w : Writer) (retry n : ℕ)
    → (generation w == generation (stable n)) ≡ false
    → verdict w retry n ≡ trying (suc retry)
verdict_refused w retry n f = rw f refl

verdict_accepted :
    (w : Writer) (retry n : ℕ)
    → verdict w retry n ≡ returned true
    → bumps w % 2 ^ 32 ≡ 2 * n % 2 ^ 32
verdict_accepted w retry n e = elim (Bool-cases (generation w == generation (stable n))) [
  | inl t ↦ (==_iff _ _).0 t
  | inr f ↦ absurd (returned_lem (suc retry) (sym (verdict_refused w retry n f) ∙ e))
]

unwrap : (b n : ℕ) → 2 * n ≤ b → b < 2 * n + 2 ^ 32 → b % 2 ^ 32 ≡ 2 * n % 2 ^ 32 → b ≡ 2 * n
unwrap b n low high e = omega (arith, low, high, e)

-- In every interleaving of the writer's and the reader's steps, when the reader accepts its copy and
-- the writer has raised the generation fewer than 2 ^ 32 times since the reader first read it, each
-- field of the copy is that of one published value, the one whose generation the reader read.
pub Reach-no_torn_read :
    (versions : Versions) (s : Shared) (retry n i : ℕ)
    → Reach versions s
    → s.reader ≡ copying retry n field_count
    → verdict s.writer retry n ≡ returned true
    → bumps s.writer < 2 * n + 2 ^ 32
    → i < field_count
    → s.copy i ≡ versions n i
Reach-no_torn_read versions s retry n i reach r accepted few h =
    let so =
      subst (λ v. IsCopying versions v s.writer s.copy) r
        ((Reach-IsConsistent versions reach).copied) in
    so.1
      (bumps_even s.writer n
        (unwrap (bumps s.writer) n so.0 few (verdict_accepted s.writer retry n accepted)))
      i h
