-- ===== src/Hook/Mailbox.antt =====
-- `HookCommandMailbox` of src/app/system/HookCommandMailbox.cpp: its atomic operations, and the runs
-- of any number of producers with the hook thread. A mask is a function from bit positions; a
-- snapshot of the focus is its pointer. The operations on `bits_` and `wakePosted_` are sequentially
-- consistent, so a run is an interleaving of them.
use nexus_key.Base.{
  ℕ, suc, ◌≡◌, Bool, true, false, not, ◌||◌, ◌==◌, if◌then◌else◌, Option, none, some,
}

abbrev pub Mask : Type 0
Mask = ℕ → Bool

abbrev pub no_bits : Mask
no_bits i = false

-- `a | b`.
abbrev pub or_bits : Mask → Mask → Mask
or_bits a b i = a i || b i

pub record Mailbox : Type 0 where
  pub bits : Mask
  pub pending_focus : Option ℕ
  pub wake_posted : Bool
  pub in_drain : Bool

abbrev pub empty_mailbox : Mailbox
empty_mailbox = record {
  bits = no_bits;
  pending_focus = none;
  wake_posted = false;
  in_drain = false;
}

-- `Post`: the store of the snapshot, if there is one.
unfoldable pub store_focus : Option ℕ → Mailbox → Mailbox
store_focus none mb = mb
store_focus (some cls) mb = record mb { pending_focus = some cls }

-- `Post`: `bits_.fetch_or(bit)`.
unfoldable pub fetch_or : Mask → Mailbox → Mailbox
fetch_or bit mb = record mb { bits = or_bits mb.bits bit }

-- `Post`: `wakePosted_.exchange(true)`, with whether the wake function is to be called.
unfoldable pub latch_wake : Mailbox → Bool × Mailbox
latch_wake mb = (not mb.wake_posted, record mb { wake_posted = true })

-- `Post` by one thread alone, with the number of calls of the wake function.
unfoldable pub post_command : Mask → Option ℕ → Mailbox → ℕ × Mailbox
unfolding store_focus fetch_or latch_wake
post_command bit cls mb =
    let (wake, after) = latch_wake (fetch_or bit (store_focus cls mb)) in
    ((if wake then 1 else 0), after)

-- `DrainBits`: `wakePosted_.store(false)`.
unfoldable pub clear_latch : Mailbox → Mailbox
clear_latch mb = record mb { wake_posted = false }

-- `DrainBits`: `bits_.exchange(0)`.
unfoldable pub take_bits : Mailbox → Mask × Mailbox
take_bits mb = (mb.bits, record mb { bits = no_bits })

unfoldable pub drain_bits : Mailbox → Mask × Mailbox
unfolding clear_latch take_bits
drain_bits mb = take_bits (clear_latch mb)

unfoldable pub consume_pending_focus : Mailbox → Option ℕ × Mailbox
consume_pending_focus mb = (mb.pending_focus, record mb { pending_focus = none })

unfoldable pub reset_latch : Mailbox → Mailbox
reset_latch mb = record mb { bits = no_bits; wake_posted = false }

-- `DrainScope`: its constructor, with whether the assertion holds, and its destructor.
unfoldable pub open_drain_scope : Mailbox → Bool × Mailbox
open_drain_scope mb = (not mb.in_drain, record mb { in_drain = true })

unfoldable pub close_drain_scope : Mailbox → Mailbox
close_drain_scope mb = record mb { in_drain = false }

-- Where a producer stands in `Post`: before the call, before `fetch_or`, before the exchange of the
-- latch, and before the call of the wake function.
pub data Producer : Type 0 where
  idle : Producer
  setting : Mask → Producer
  latching : Producer
  waking : Producer

-- Where the hook thread stands in `DrainBits`: before the store, before the exchange, and outside
-- with the mask that it got last.
pub data Consumer : Type 0 where
  clearing : Consumer
  taking : Consumer
  got : Mask → Consumer

-- The producers by number, and the wake messages in the queue of the hook thread.
pub record System : Type 0 where
  pub mailbox : Mailbox
  pub producer : ℕ → Producer
  pub consumer : Consumer
  pub queue : ℕ

abbrev pub move : ℕ → Producer → (ℕ → Producer) → ℕ → Producer
move t p producer u = if t == u then p else producer u

abbrev pub start : System
start = record { mailbox = empty_mailbox; producer = λ t. idle; consumer = got no_bits; queue = 0 }

-- What the threads do once they have begun: the rest of a post, the handling of a wake message, and
-- the rest of a drain. `next` is what a producer does after its exchange of the latch.
abbrev pub next : Bool → Producer
next true = waking
next false = idle

pub data Progress : System → System → Type 0 where
  set_bit :
      (s : System) (t : ℕ) (bit : Mask)
      → s.producer t ≡ setting bit
      → Progress s
          (record s { mailbox = fetch_or bit s.mailbox; producer = move t latching s.producer })
  latch :
      (s : System) (t : ℕ)
      → s.producer t ≡ latching
      → Progress s (record s {
        mailbox = (latch_wake s.mailbox).1;
        producer = move t (next ((latch_wake s.mailbox).0)) s.producer;
      })
  wake :
      (s : System) (t : ℕ)
      → s.producer t ≡ waking
      → Progress s (record s { producer = move t idle s.producer; queue = suc s.queue })
  handle :
      (s : System) (m : Mask) (n : ℕ)
      → s.consumer ≡ got m
      → s.queue ≡ suc n
      → Progress s (record s { consumer = clearing; queue = n })
  clear_wake :
      (s : System)
      → s.consumer ≡ clearing
      → Progress s (record s { mailbox = clear_latch s.mailbox; consumer = taking })
  take :
      (s : System)
      → s.consumer ≡ taking
      → Progress s
          (record s { mailbox = (take_bits s.mailbox).1; consumer = got ((take_bits s.mailbox).0) })

-- What the environment begins: a post, a drain at a key, and the use of the snapshot.
pub data Step : System → System → Type 0 where
  progress : {s u : System} → Progress s u → Step s u
  begin_post :
      (s : System) (t : ℕ) (bit : Mask) (cls : Option ℕ)
      → s.producer t ≡ idle
      → Step s (record s {
        mailbox = store_focus cls s.mailbox;
        producer = move t (setting bit) s.producer;
      })
  begin_drain :
      (s : System) (m : Mask) → s.consumer ≡ got m → Step s (record s { consumer = clearing })
  use_focus :
      (s : System) (m : Mask)
      → s.consumer ≡ got m
      → Step s (record s { mailbox = (consume_pending_focus s.mailbox).1 })

-- The systems that a run reaches.
pub data Reach : System → Type 0 where
  started : Reach start
  onward : {s u : System} → Reach s → Step s u → Reach u

-- The runs in which nothing new begins.
pub data Runs : System → System → Type 0 where
  done : (s : System) → Runs s s
  more : {s u v : System} → Progress s u → Runs u v → Runs s v
