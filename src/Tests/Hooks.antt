-- ===== src/Tests/Hooks.antt =====
-- The theorems on the mailbox, the detector and the other parts of the hook, at concrete runs.
use nexus_key.Base.{
  drop, length, map, ℕ, ◌≤◌, ◌≡◌, refl, true, false, ◌==◌, ltb, if◌then◌else◌, none, some, List, [],
  ◌∷◌, ◌++◌, codes, Wstring, arith, ◌+◌, ◌%◌, ◌^◌,
}
use nexus_key.Hook.Mailbox.{
  Mask, no_bits, fetch_or, latch_wake, clear_latch, take_bits, store_focus, System, Reach, started,
  onward, begin_post, progress, set_bit, latch, wake, handle, clear_wake, take, start, setting,
  latching, waking, Producer, clearing, taking, got, move,
}
use nexus_key.Hook.Wakeups.{Reach-bits}
use nexus_key.Hook.Liveness.{CanGet, Reach-CanGet}
use nexus_key.Hook.Hijack.{Detector, KeyState, PollInputs}
use nexus_key.Hook.Ghosts.{
  IsSteady, Event, polled, focused, after, total_ghosts, total_misses, run-ghosts,
}
use nexus_key.Hook.Commit.{
  idle, Entry, CommitState, set_ready, ready_expired, push_entries, youngest, push_entries-youngest,
  ready_expired-set_ready,
}
use nexus_key.Hook.Burst.{Scheduler, Call, scheduled, cancelled, schedule, posts, fire-after}
use nexus_key.Hook.Burst

-- `kFocusChanged`.
abbrev focus_changed : Mask
focus_changed i = i == 0

-- One producer begins a post of a change of the focus, and sets its bit.
abbrev begun : System
begun = record start {
  mailbox = store_focus (some 7) start.mailbox;
  producer = move 0 (setting focus_changed) start.producer;
}

abbrev posted : System
posted = record begun {
  mailbox = fetch_or focus_changed begun.mailbox;
  producer = move 0 latching begun.producer;
}

Reach-posted : Reach posted
Reach-posted =
    onward (onward started (begin_post start 0 focus_changed (some 7) refl))
      (progress (set_bit begun 0 focus_changed refl))

posted-bits : posted.mailbox.bits 0 ≡ true
unfolding store_focus fetch_or
posted-bits = refl

Reach-CanGet_example : CanGet 0 posted
Reach-CanGet_example = Reach-CanGet 0 posted Reach-posted posted-bits

-- The wake message is posted, and the hook thread drains the mailbox for it.
abbrev latched : System
latched = record posted {
  mailbox = (latch_wake posted.mailbox).1;
  producer = move 0 waking posted.producer;
}

abbrev woken : System
woken = record latched { producer = move 0 Producer.idle latched.producer; queue = 1 }

abbrev handling : System
handling = record woken { consumer = clearing; queue = 0 }

abbrev cleared : System
cleared = record handling { mailbox = clear_latch handling.mailbox; consumer = taking }

abbrev drained : System
drained = record cleared {
  mailbox = (take_bits cleared.mailbox).1;
  consumer = got ((take_bits cleared.mailbox).0);
}

Reach-drained : Reach drained
unfolding store_focus fetch_or latch_wake
Reach-drained =
    onward
      (onward
        (onward
          (onward (onward Reach-posted (progress (latch posted 0 refl)))
            (progress (wake latched 0 refl)))
          (progress (handle woken no_bits 0 refl refl)))
        (progress (clear_wake handling refl)))
      (progress (take cleared refl))

drained-idle : (t : ℕ) → drained.producer t ≡ Producer.idle
drained-idle t = ground arith

Reach-bits_example : drained.mailbox.bits 0 ≡ false
Reach-bits_example =
    Reach-bits drained ((take_bits cleared.mailbox).0) Reach-drained
      (λ t e. ground (arith, drained-idle t, e)) (λ t e. ground (arith, drained-idle t, e)) refl
      refl 0

-- A detector in a Chromium window, and two polls in which an A and then a B go down that the hook does
-- not see.
abbrev watching : Detector
watching = record {
  chromium_class_active = true;
  pending_reset = false;
  prev_state = λ vk. 0;
  pending = [];
  prev_hook_fire_count = 5;
  observed_key_downs = 0;
  accumulated_drift = 0;
  last_reinstall_tick_ms = 0;
  baselines_valid = true;
}

abbrev held : ℕ → ℕ → KeyState
held first last vk = if vk == first then 0x80 else if vk == last then 0x80 else 0

abbrev poll_of : ℕ → KeyState → Event
poll_of now state = polled (record {
  now_ms = now;
  keyboard_state = some state;
  hook_fire_count = 5;
  translate_vk_to_char = λ vk mods. vk;
})

abbrev eaten : List Event
eaten = poll_of 40 (held b'A' b'A') ∷ poll_of 80 (held b'A' b'B') ∷ focused false ∷ []

run-ghosts_example :
    IsSteady (after watching eaten)
    × (total_ghosts watching eaten ≤ 0 + total_misses watching eaten)
run-ghosts_example = run-ghosts watching eaten (omega arith, omega arith)

total_ghosts-eaten : total_ghosts watching eaten ≡ 2
unfolding nexus_key.Hook.Hijack.poll nexus_key.Hook.Hijack.poll_steady
    nexus_key.Hook.Hijack.compare_state nexus_key.Hook.Hijack.escalate
    nexus_key.Hook.Hijack.update_drift nexus_key.Hook.Hijack.key_downs
    nexus_key.Hook.Hijack.is_trackable_vk nexus_key.Hook.Hijack.ghost_chars
    nexus_key.Hook.Hijack.buffer_keys
total_ghosts-eaten = refl

abbrev entry : Wstring → Entry
entry text = record {
  history = text;
  text = text;
  raw_input = text;
  widths = [];
  extra_leading_triggers = 0;
}

abbrev no_commits : CommitState
no_commits = record {
  state = idle;
  stack = [];
  pushed_to_stack = false;
  pending_trigger_count = 0;
  leading_triggers_for_current_word = 0;
  ready_time = 0;
  input_history = [];
}

abbrev four_words : List Entry
four_words =
    entry (codes "mot") ∷ entry (codes "hai") ∷ entry (codes "ba") ∷ entry (codes "bon") ∷ []

push_entries-youngest_example :
    (push_entries four_words no_commits).stack ≡ youngest ([] ++ four_words)
push_entries-youngest_example = push_entries-youngest four_words no_commits [] refl

-- The clock wraps around after 296 milliseconds.
ready_expired-set_ready_example :
    ready_expired ((4294967000 + 4001) % 2 ^ 32) (set_ready 4294967000 no_commits) ≡ ltb 4000 4001
ready_expired-set_ready_example =
    ready_expired-set_ready no_commits 4294967000 4001 (omega arith) (omega arith)

abbrev scheduler : Scheduler
scheduler = record { generation = 0; timers = [] }

abbrev calls : List Call
calls = scheduled 3 (300 ∷ 800 ∷ []) ∷ cancelled ∷ scheduled 4 (300 ∷ []) ∷ []

fire-after_example :
    let scheduled_ = schedule 3 (300 ∷ 800 ∷ []) scheduler in
    posts (drop (length scheduler.timers) scheduled_.timers) (Burst.after scheduled_ calls)
    ≡ map (λ delay. (delay, if Burst.cancels calls == 0 then some 3 else none)) (300 ∷ 800 ∷ [])
fire-after_example = fire-after scheduler 3 (300 ∷ 800 ∷ []) calls (omega arith) (omega arith)
