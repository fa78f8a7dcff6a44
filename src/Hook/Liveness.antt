-- ===== src/Hook/Liveness.antt =====
-- Every command in the mailbox of src/app/system/HookCommandMailbox.cpp can be handled without
-- another post or key.
use nexus_key.Base.{ℕ, zero, suc, ◌≡◌, ◌≢◌, inl, inr, refl, true}
use nexus_key.Hook.Mailbox.{
  Mask, latch_wake, clear_latch, take_bits, Consumer, clearing, taking, got, System, Progress,
  latch, wake, handle, clear_wake, take, Reach, Runs, done, more,
}
use nexus_key.Hook.Wakeups.{IsAwaited, Reach-IsAwaited, Progress-IsAwaited}

-- The threads can run on until the hook thread has got the command.
abbrev pub CanGet : ℕ → System → Type 0
CanGet i s = (u : System) × (m : Mask) × Runs s u × (u.consumer ≡ got m) × (m i ≡ true)

first_step : {i : ℕ} {s u : System} → Progress s u → CanGet i u → CanGet i s
first_step p (v, m, r, c, b) = (v, m, more p r, c, b)

from_taking : (i : ℕ) (s : System) → s.mailbox.bits i ≡ true → s.consumer ≡ taking → CanGet i s
unfolding take_bits
from_taking i s b c = (_, s.mailbox.bits, more (take s c) (done _), refl, b)

from_clearing : (i : ℕ) (s : System) → s.mailbox.bits i ≡ true → s.consumer ≡ clearing → CanGet i s
unfolding clear_latch
from_clearing i s b c = first_step (clear_wake s c) (from_taking i _ b refl)

from_queue : (i : ℕ) (s : System) (n : ℕ) → s.mailbox.bits i ≡ true → s.queue ≡ suc n → CanGet i s
from_queue i s n b q = go s.consumer refl
  where
    go : (c : Consumer) → s.consumer ≡ c → CanGet i s
    go clearing e = from_clearing i s b e
    go taking e = from_taking i s b e
    go (got m) e = first_step (handle s m n e q) (from_clearing i _ b refl)

from_latch :
    (i : ℕ) (s : System)
    → IsAwaited s
    → s.mailbox.bits i ≡ true
    → s.mailbox.wake_posted ≡ true
    → CanGet i s
from_latch i s a b w =
    let latched = a.latched in
    elim (latched w) [
      | inl n ↦ go n s.queue refl
      | inr (inl (t, k)) ↦ first_step (wake s t k) (from_queue i _ s.queue b refl)
      | inr (inr e) ↦ from_clearing i s b e
    ]
  where
    go : s.queue ≢ 0 → (n : ℕ) → s.queue ≡ n → CanGet i s
    go h zero q = absurd (h q)
    go h (suc n) q = from_queue i s n b q

-- From every system that a run reaches in which a command waits in the mailbox, the threads can run
-- on, with no new post and no key, until the hook thread has got that command from `DrainBits`.
pub Reach-CanGet : (i : ℕ) (s : System) → Reach s → s.mailbox.bits i ≡ true → CanGet i s
unfolding latch_wake
Reach-CanGet i s r b =
    let a = Reach-IsAwaited r in
    let command = a.command in
    elim (command i b) [
      | inl w ↦ from_latch i s a b w
      | inr (inl (t, k)) ↦
          first_step (latch s t k) (from_latch i _ (Progress-IsAwaited (latch s t k) a) b refl)
      | inr (inr e) ↦ from_taking i s b e
    ]
