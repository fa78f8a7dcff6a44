-- ===== src/Hook/Burst.antt =====
-- `ReinstallBurstScheduler` of src/app/system/ReinstallBurstScheduler.cpp. The callbacks that the timer
-- holds are a list; a callback posts its reason unless the generation has changed.
use nexus_key.Base.{
  ℕ, suc, ◌+◌, ◌%◌, ◌^◌, ◌<◌, ◌≡◌, refl, ap, false, ◌==◌, ==_iff, Bool-cases, inl, inr,
  if◌then◌else◌, Option, none, some, List, [], ◌∷◌, ◌++◌, map, drop, length, arith,
}

-- A callback: the generation and the reason that it captured.
pub record Fire : Type 0 where
  pub scheduled_gen : ℕ
  pub reason : ℕ

pub record Scheduler : Type 0 where
  pub generation : ℕ
  pub timers : List (ℕ × Fire)

unfoldable pub schedule : ℕ → List ℕ → Scheduler → Scheduler
schedule reason delays_ms s = record s {
  timers =
      s.timers
      ++ map (λ delay. (delay, record { scheduled_gen = s.generation; reason = reason })) delays_ms;
}

unfoldable pub cancel : Scheduler → Scheduler
cancel s = record s { generation = (s.generation + 1) % 2 ^ 64 }

-- What a callback posts when it fires.
unfoldable pub fire : Fire → Scheduler → Option ℕ
fire f s = if s.generation == f.scheduled_gen then some f.reason else none

pub data Call : Type 0 where
  scheduled : ℕ → List ℕ → Call
  cancelled : Call

abbrev pub after : Scheduler → List Call → Scheduler
after s [] = s
after s (scheduled reason delays ∷ calls) = after (schedule reason delays s) calls
after s (cancelled ∷ calls) = after (cancel s) calls

abbrev pub cancels : List Call → ℕ
cancels [] = 0
cancels (scheduled reason delays ∷ calls) = cancels calls
cancels (cancelled ∷ calls) = suc (cancels calls)

after-generation :
    (s : Scheduler) (calls : List Call)
    → s.generation < 2 ^ 64
    → (after s calls).generation ≡ (s.generation + cancels calls) % 2 ^ 64
unfolding schedule cancel
after-generation s [] h = omega (arith, h)
after-generation s (scheduled reason delays ∷ calls) h =
    after-generation (schedule reason delays s) calls h
after-generation s (cancelled ∷ calls) h =
    omega (arith, after-generation (cancel s) calls (omega arith), h)

fire-after_scheduled :
    (s : Scheduler) (reason : ℕ) (calls : List Call)
    → s.generation < 2 ^ 64
    → cancels calls < 2 ^ 64
    → fire (record { scheduled_gen = s.generation; reason = reason }) (after s calls)
      ≡ (if cancels calls == 0 then some reason else none)
unfolding fire
fire-after_scheduled s reason calls h k =
    let g = after-generation s calls h in
    elim (Bool-cases (cancels calls == 0)) [
      | inl e ↦
          let q : (after s calls).generation ≡ s.generation = ground (arith, g) in
          rw (e, q, (==_iff s.generation s.generation).1 refl) refl
      | inr e ↦
          let q : ((after s calls).generation == s.generation) ≡ false = ground (arith, g) in
          rw (e, q) refl
    ]

drop-append {ℓ} : {A : Type ℓ} (xs ys : List A) → drop (length xs) (xs ++ ys) ≡ ys
drop-append [] ys = refl
drop-append (x ∷ xs) ys = drop-append xs ys

-- What timers post when they fire, each with its delay.
abbrev pub posts : List (ℕ × Fire) → Scheduler → List (ℕ × Option ℕ)
posts timers s = map (λ t. (t.0, fire t.1 s)) timers

posts-map :
    (delays_ms : List ℕ) (f : Fire) (s : Scheduler) (r : Option ℕ)
    → fire f s ≡ r
    → posts (map (λ delay. (delay, f)) delays_ms) s ≡ map (λ delay. (delay, r)) delays_ms
posts-map [] f s r e = refl
posts-map (d ∷ delays_ms) f s r e = rw e (ap (λ l. (d, r) ∷ l) (posts-map delays_ms f s r e))

-- `Schedule` adds one timer for each delay, in order. After any further calls, each of these, when it
-- fires, posts the reason exactly if `Cancel` was not among the calls, as long as there were fewer than
-- 2^64 calls of it.
pub fire-after :
    (s : Scheduler) (reason : ℕ) (delays_ms : List ℕ) (calls : List Call)
    → s.generation < 2 ^ 64
    → cancels calls < 2 ^ 64
    → let scheduled_ = schedule reason delays_ms s in
      posts (drop (length s.timers) scheduled_.timers) (after scheduled_ calls)
      ≡ map (λ delay. (delay, if cancels calls == 0 then some reason else none)) delays_ms
unfolding schedule
fire-after s reason delays_ms calls h k =
    let f : Fire = record { scheduled_gen = s.generation; reason = reason } in
    rw (drop-append s.timers (map (λ delay. (delay, f)) delays_ms)) (
      posts-map delays_ms f (after (schedule reason delays_ms s) calls) _
        (fire-after_scheduled (schedule reason delays_ms s) reason calls h k))
