-- ===== src/Hook/Wakeups.antt =====
-- No command is stranded in the mailbox of src/app/system/HookCommandMailbox.cpp.
use nexus_key.Base.{
  ℕ, ◌≡◌, ◌≢◌, ◌⊎◌, inl, inr, refl, sym, ap, ◌∙◌, true, false, not, ◌==◌, ==_iff, Option, none,
  some, Bool-cases, arith,
}
use nexus_key.Hook.Mailbox.{
  Mask, Mailbox, store_focus, fetch_or, latch_wake, clear_latch, take_bits, consume_pending_focus,
  Producer, idle, setting, latching, waking, clearing, taking, got, System, move, next, Progress,
  set_bit, latch, wake, handle, clear_wake, take, Step, progress, begin_post, begin_drain,
  use_focus, Reach, started, onward,
}

-- Some producer is before its exchange of the latch, or before its call of the wake function.
abbrev pub SomeLatching : System → Type 0
SomeLatching s = (t : ℕ) × (s.producer t ≡ latching)

abbrev pub SomeWaking : System → Type 0
SomeWaking s = (t : ℕ) × (s.producer t ≡ waking)

-- A command that waits is latched, or is about to be, or the hook thread is about to take it; and
-- a latch that is set has a message in the queue, or will have one, or the hook thread will clear it.
pub record IsAwaited (s : System) : Type 0 where
  pub command :
      (i : ℕ)
      → s.mailbox.bits i ≡ true
      → (s.mailbox.wake_posted ≡ true) ⊎ SomeLatching s ⊎ (s.consumer ≡ taking)
  pub latched :
      s.mailbox.wake_posted ≡ true → (s.queue ≢ 0) ⊎ SomeWaking s ⊎ (s.consumer ≡ clearing)

move_self : (t : ℕ) (p : Producer) (f : ℕ → Producer) → move t p f t ≡ p
move_self t p f = ground arith

-- Another producer stays where it is.
move_other :
    (t u : ℕ) (p q r : Producer) (f : ℕ → Producer) → f t ≡ p → f u ≡ q → p ≢ q → move t r f u ≡ q
move_other t u p q r f h k n = elim (Bool-cases (t == u)) [
  | inl e ↦ absurd (n (sym h ∙ ap f ((==_iff t u).0 e) ∙ k))
  | inr e ↦ rw e k
]

-- The producers at a place stay there when one moves that is at another place.
stays :
    {p q : Producer} (t : ℕ) (r : Producer) (f : ℕ → Producer)
    → f t ≡ p
    → p ≢ q
    → ((u : ℕ) × (f u ≡ q))
    → (u : ℕ) × (move t r f u ≡ q)
stays t r f h n (u, k) = (u, move_other t u _ _ r f h k n)

-- To change the middle of three cases.
middle {ℓ} : {A B C D : Type ℓ} → (B → D) → A ⊎ B ⊎ C → A ⊎ D ⊎ C
middle f (inl a) = inl a
middle f (inr (inl b)) = inr (inl (f b))
middle f (inr (inr c)) = inr (inr c)

latch-latched :
    (s : System) (t : ℕ)
    → s.producer t ≡ latching
    → IsAwaited s
    → (s.queue ≢ 0)
      ⊎ ((u : ℕ) × (move t (next (not s.mailbox.wake_posted)) s.producer u ≡ waking))
      ⊎ (s.consumer ≡ clearing)
latch-latched s t h a = elim (Bool-cases s.mailbox.wake_posted) [
  | inl e ↦ middle (stays t _ s.producer h (λ e. ground arith)) (a.latched e)
  | inr e ↦ rw e (inr (inl (t, move_self t waking s.producer)))
]

pub Progress-IsAwaited : {s u : System} → Progress s u → IsAwaited s → IsAwaited u
unfolding fetch_or latch_wake clear_latch take_bits
Progress-IsAwaited (set_bit s t bit h) a = record {
  command = λ i b. inr (inl (t, move_self t latching s.producer));
  latched = λ w. middle (stays t latching s.producer h (λ e. ground arith)) (a.latched w);
}
Progress-IsAwaited (latch s t h) a = record {
  command = λ i b. inl refl;
  latched = λ w. latch-latched s t h a;
}
Progress-IsAwaited (wake s t h) a = record {
  command = λ i b. middle (stays t idle s.producer h (λ e. ground arith)) (a.command i b);
  latched = λ w. inl (omega arith);
}
Progress-IsAwaited (handle s m n h k) a = record {
  command = λ i b. ground (arith, a.command i b);
  latched = λ w. inr (inr refl);
}
Progress-IsAwaited (clear_wake s h) a = record {
  command = λ i b. inr (inr refl);
  latched = λ w. ground arith;
}
Progress-IsAwaited (take s h) a = record {
  command = λ i b. ground arith;
  latched = λ w. ground (arith, a.latched w);
}

store_focus-bits :
    (cls : Option ℕ) (mb : Mailbox)
    → ((store_focus cls mb).bits ≡ mb.bits) × ((store_focus cls mb).wake_posted ≡ mb.wake_posted)
unfolding store_focus
store_focus-bits none mb = (refl, refl)
store_focus-bits (some c) mb = (refl, refl)

Step-IsAwaited : {s u : System} → Step s u → IsAwaited s → IsAwaited u
unfolding consume_pending_focus
Step-IsAwaited (progress p) a = Progress-IsAwaited p a
Step-IsAwaited (begin_post s t bit cls h) a =
    let f = store_focus-bits cls s.mailbox in
    let n : idle ≢ latching = λ e. ground arith in
    let n' : idle ≢ waking = λ e. ground arith in
    record {
      command = λ i b. rw f.1 (
          middle (stays t (setting bit) s.producer h n)
            (a.command i (sym (ap (λ b. b i) f.0) ∙ b)));
      latched = λ w. middle (stays t (setting bit) s.producer h n') (a.latched (sym f.1 ∙ w));
    }
Step-IsAwaited (begin_drain s m h) a = record {
  command = λ i b. ground (arith, a.command i b);
  latched = λ w. inr (inr refl);
}
Step-IsAwaited (use_focus s m h) a = record { command = a.command; latched = a.latched }

pub Reach-IsAwaited : {s : System} → Reach s → IsAwaited s
Reach-IsAwaited started = record { command = λ i b. ground arith; latched = λ w. ground arith }
Reach-IsAwaited (onward r st) = Step-IsAwaited st (Reach-IsAwaited r)

not_awaited :
    (s : System) (m : Mask)
    → IsAwaited s
    → ((t : ℕ) → s.producer t ≢ latching)
    → ((t : ℕ) → s.producer t ≢ waking)
    → s.queue ≡ 0
    → s.consumer ≡ got m
    → (i : ℕ) → s.mailbox.bits i ≢ true
not_awaited s m a l w q c i b =
    let latched = a.latched in
    elim (a.command i b) [
      | inl p ↦ elim (latched p) [
        | inl n ↦ n q
        | inr (inl (t, k)) ↦ w t k
        | inr (inr e) ↦ ground (arith, sym c ∙ e)
      ]
      | inr (inl (t, k)) ↦ l t k
      | inr (inr e) ↦ ground (arith, sym c ∙ e)
    ]

-- In every system that a run reaches, whatever the interleaving of the producers with the hook
-- thread: if no producer is between its `fetch_or` and the call of the wake function, no wake message
-- is in the queue, and the hook thread is not in `DrainBits`, then no command waits in the mailbox.
pub Reach-bits :
    (s : System) (m : Mask)
    → Reach s
    → ((t : ℕ) → s.producer t ≢ latching)
    → ((t : ℕ) → s.producer t ≢ waking)
    → s.queue ≡ 0
    → s.consumer ≡ got m
    → (i : ℕ) → s.mailbox.bits i ≡ false
Reach-bits s m r l w q c i =
    let a = Reach-IsAwaited r in
    elim (Bool-cases (s.mailbox.bits i)) [
      | inl b ↦ absurd (not_awaited s m a l w q c i b)
      | inr b ↦ b
    ]
