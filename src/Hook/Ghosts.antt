-- ===== src/Hook/Ghosts.antt =====
-- No key is typed twice by the detector of src/app/system/HookHijackDetector.cpp: the ghost keys that
-- it injects are covered by keys that the hook has missed.
use nexus_key.Base.{
  ℕ, zero, suc, ◌+◌, ◌-◌, ◌≤◌, ◌≡◌, refl, Bool, true, false, not, ◌==◌, ltb, if◌then◌else◌, none,
  some, Option-cases, Bool-cases, inl, inr, List, [], ◌∷◌, ◌++◌, map, length, take, arith,
  length-append,
}
use nexus_key.Hook.Hijack.{
  pending_vk_cap, KeyState, PendingKey, Detector, PollInputs, Polled, set_chromium_class_active,
  reset_detector, establish_baselines, key_downs, buffer_keys, update_drift, pack_mods, ghost_chars,
  escalate, hook_count_delta, in_cooldown, compare_state, poll_steady, consume_reset, quiet, poll,
}

-- Between polls the drift is within the tolerance, and no more keys are buffered than the drift.
abbrev pub IsSteady : Detector → Type 0
IsSteady d = (d.accumulated_drift ≤ 1) × (length d.pending ≤ d.accumulated_drift)

length-take {ℓ} : {A : Type ℓ} (n : ℕ) (xs : List A) → length (take n xs) ≤ length xs
length-take zero xs = omega arith
length-take (suc n) [] = omega arith
length-take (suc n) (x ∷ xs) = omega (arith, length-take n xs)

length-map {ℓ} : {A B : Type ℓ} (f : A → B) (xs : List A) → length (map f xs) ≡ length xs
length-map f [] = refl
length-map f (x ∷ xs) = omega (arith, length-map f xs)

length-buffer_keys :
    (vks : List ℕ) (mods : ℕ) (pending : List PendingKey)
    → length (buffer_keys (take pending_vk_cap vks) mods pending) ≤ length pending + length vks
unfolding buffer_keys
length-buffer_keys vks mods pending = omega (
  arith,
  length-take pending_vk_cap (
      pending
      ++ map {B = PendingKey} (λ k. record { vk = k; mods = mods }) (take pending_vk_cap vks)),
  length-append pending
      (map {B = PendingKey} (λ k. record { vk = k; mods = mods }) (take pending_vk_cap vks)),
  length-map {B = PendingKey} (λ k. record { vk = k; mods = mods }) (take pending_vk_cap vks),
  length-take pending_vk_cap vks,
)

length-ghost_chars :
    (translate : ℕ → KeyState → ℕ) (pending : List PendingKey)
    → length (ghost_chars translate pending) ≤ length pending
unfolding ghost_chars
length-ghost_chars translate [] = omega arith
length-ghost_chars translate (k ∷ pending) = ground (arith, length-ghost_chars translate pending)

-- The keys of a poll that the hook has missed: those beyond the calls of the hook, in a poll that
-- compares them.
abbrev pub misses_steady : PollInputs → Detector → ℕ
misses_steady i d =
    if not d.baselines_valid then 0 else if in_cooldown i d then 0 else elim i.keyboard_state [
      | none ↦ 0
      | some now ↦ length (key_downs d.prev_state now 0 256) - hook_count_delta i d
    ]

abbrev pub misses : PollInputs → Detector → ℕ
misses i d = if not d.chromium_class_active then 0 else misses_steady i (consume_reset d)

-- The drift of a steady detector is 1 at most, so that the hook being ahead clears it.
update_drift_lem :
    (now : KeyState) (vks : List ℕ) (delta : ℕ) (d : Detector)
    → IsSteady d
    → let e = update_drift now vks delta d in
      (length e.pending ≤ e.accumulated_drift)
      × (e.accumulated_drift ≤ d.accumulated_drift + (length vks - delta))
unfolding update_drift
update_drift_lem now vks delta d h = elim (Bool-cases (ltb delta (length vks))) [
  | inl m ↦ rw m (
      let b = length-buffer_keys vks (pack_mods now) d.pending in
      elim (Bool-cases (delta == 0)) [ inl z ↦ rw z (ground arith) | inr z ↦ rw z (ground arith) ])
  | inr m ↦ rw m (elim (Bool-cases (ltb (length vks) delta)) [
    | inl l ↦ rw l (elim (Bool-cases (ltb (delta - length vks) d.accumulated_drift)) [
      | inl o ↦ rw o (ground arith)
      | inr o ↦ rw o (ground arith)
    ])
    | inr l ↦ rw l (ground arith)
  ])
]

escalate_lem :
    (i : PollInputs) (d : Detector)
    → length d.pending ≤ d.accumulated_drift
    → IsSteady (escalate i d).detector
      × (length (escalate i d).injected + (escalate i d).detector.accumulated_drift
          ≤ d.accumulated_drift)
unfolding escalate
escalate_lem i d h = let g = length-ghost_chars i.translate_vk_to_char d.pending in ground arith

compare_state_lem :
    (i : PollInputs) (now : KeyState) (d : Detector)
    → IsSteady d
    → IsSteady (compare_state i now d).detector
      × (length (compare_state i now d).injected
            + (compare_state i now d).detector.accumulated_drift
          ≤ d.accumulated_drift
            + (length (key_downs d.prev_state now 0 256) - hook_count_delta i d))
unfolding compare_state
compare_state_lem i now d h =
    let vks = key_downs d.prev_state now 0 256 in
    let delta = hook_count_delta i d in
    let e = record d { prev_state = now; prev_hook_fire_count = i.hook_fire_count } in
    let u = update_drift_lem now vks delta e h in
    let x = escalate_lem i (update_drift now vks delta e) u.0 in (x.0, omega (arith, u.1, x.1))

poll_steady_lem :
    (i : PollInputs) (d : Detector)
    → IsSteady d
    → IsSteady (poll_steady i d).detector
      × (length (poll_steady i d).injected + (poll_steady i d).detector.accumulated_drift
          ≤ d.accumulated_drift + misses_steady i d)
unfolding poll_steady establish_baselines
poll_steady_lem i d h = elim (Bool-cases d.baselines_valid) [
  | inr b ↦ rw b (ground arith)
  | inl b ↦ rw b (elim (Bool-cases (in_cooldown i d)) [
    | inl c ↦ rw c (ground arith)
    | inr c ↦ rw c (elim (Option-cases i.keyboard_state) [
      | inl n ↦ rw n (ground arith)
      | inr (now, e) ↦ rw e (compare_state_lem i now d h)
    ])
  ])
]

consume_reset_lem :
    (d : Detector)
    → IsSteady d
    → IsSteady (consume_reset d) × ((consume_reset d).accumulated_drift ≤ d.accumulated_drift)
consume_reset_lem d h = ground arith

gated :
    (open_ : Bool) (d : Detector) (p : Polled) (m : ℕ)
    → IsSteady d
    → (IsSteady p.detector
        × (length p.injected + p.detector.accumulated_drift ≤ d.accumulated_drift + m))
    → let q = if not open_ then quiet d else p in
      IsSteady q.detector
      × (length q.injected + q.detector.accumulated_drift
          ≤ d.accumulated_drift + (if not open_ then 0 else m))
gated true d p m h k = k
gated false d p m h k = (h, omega arith)

poll_lem :
    (i : PollInputs) (d : Detector)
    → IsSteady d
    → IsSteady (poll i d).detector
      × (length (poll i d).injected + (poll i d).detector.accumulated_drift
          ≤ d.accumulated_drift + misses i d)
unfolding poll
poll_lem i d h =
    let c = consume_reset_lem d h in
    let p = poll_steady_lem i (consume_reset d) c.0 in
    gated d.chromium_class_active d (poll_steady i (consume_reset d))
      (misses_steady i (consume_reset d)) h (p.0, omega (arith, p.1, c.1))

-- What happens to the detector: a poll, a change of the focus, a reset.
pub data Event : Type 0 where
  polled : PollInputs → Event
  focused : Bool → Event
  rearmed : Event

-- The detector after an event, with the ghost keys that it injected and the keys that it found missed.
abbrev step : Detector → Event → record { detector : Detector; ghosts : ℕ; missed : ℕ }
step d (polled i) = record {
  detector = (poll i d).detector;
  ghosts = length ((poll i d).injected);
  missed = misses i d;
}
step d (focused active) = record {
  detector = set_chromium_class_active active d;
  ghosts = 0;
  missed = 0;
}
step d rearmed = record { detector = reset_detector d; ghosts = 0; missed = 0 }

abbrev pub after : Detector → List Event → Detector
after d [] = d
after d (e ∷ events) = after (step d e).detector events

abbrev pub total_ghosts : Detector → List Event → ℕ
total_ghosts d [] = 0
total_ghosts d (e ∷ events) = (step d e).ghosts + total_ghosts (step d e).detector events

abbrev pub total_misses : Detector → List Event → ℕ
total_misses d [] = 0
total_misses d (e ∷ events) = (step d e).missed + total_misses (step d e).detector events

step_lem :
    (d : Detector) (e : Event)
    → IsSteady d
    → IsSteady (step d e).detector
      × ((step d e).ghosts + (step d e).detector.accumulated_drift
          ≤ d.accumulated_drift + (step d e).missed)
unfolding set_chromium_class_active reset_detector
step_lem d (polled i) h = poll_lem i d h
step_lem d (focused active) h = ground arith
step_lem d rearmed h = ground arith

-- From a detector whose drift is within the tolerance, with no more keys buffered than the drift: over
-- any polls, changes of the focus and resets it stays so, and all the ghost keys that the polls
-- inject are no more than the drift at the start and the keys that the polls find missed by the hook.
pub run-ghosts :
    (d : Detector) (events : List Event)
    → IsSteady d
    → IsSteady (after d events)
      × (total_ghosts d events ≤ d.accumulated_drift + total_misses d events)
run-ghosts d [] h = (h, omega arith)
run-ghosts d (e ∷ events) h =
    let s = step_lem d e h in
    let r = run-ghosts (step d e).detector events s.0 in (r.0, omega (arith, s.1, r.1))
