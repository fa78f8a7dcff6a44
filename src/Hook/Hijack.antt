-- ===== src/Hook/Hijack.antt =====
-- `HookHijackDetector` of src/app/system/HookHijackDetector.cpp. A buffer of 256 bytes is a function
-- from indices. What the callbacks and the clock give to a poll is `PollInputs`; what a poll asks of
-- the callbacks is `Polled`. The drift is at most 257, so its sum is not reduced modulo 2^64.
use nexus_key.Base.{
  ℕ, zero, suc, ◌+◌, ◌-◌, ◌/◌, ◌%◌, ◌^◌, Bool, true, false, not, ◌&&◌, ◌||◌, ◌==◌, ltb, leb,
  if◌then◌else◌, Option, none, some, List, [], ◌∷◌, ◌++◌, map, Wstring, length, take,
}

abbrev pub reinstall_cooldown_ms : ℕ
reinstall_cooldown_ms = 150

abbrev pub drift_tolerance : ℕ
drift_tolerance = 1

abbrev pub pending_vk_cap : ℕ
pending_vk_cap = 16

abbrev vk_shift : ℕ
vk_shift = 0x10

abbrev vk_control : ℕ
vk_control = 0x11

abbrev vk_menu : ℕ
vk_menu = 0x12

abbrev vk_capital : ℕ
vk_capital = 0x14

unfoldable pub is_trackable_vk : ℕ → Bool
is_trackable_vk vk =
    leb b'A' vk && leb vk b'Z'
    || leb b'0' vk && leb vk b'9'
    || vk == 0x20
    || vk == 0x08
    || leb 0xBA vk && leb vk 0xDF

abbrev pub is_key_down_byte : ℕ → Bool
is_key_down_byte b = b / 0x80 % 2 == 1

abbrev pub KeyState : Type 0
KeyState = ℕ → ℕ

-- The bits of a mask are distinct, so `|` is a sum.
unfoldable pub pack_mods : KeyState → ℕ
pack_mods state =
    (if is_key_down_byte (state vk_shift) then 0x01 else 0)
    + (if state vk_capital % 2 == 1 then 0x02 else 0)
    + (if is_key_down_byte (state vk_control) then 0x04 else 0)
    + (if is_key_down_byte (state vk_menu) then 0x08 else 0)

-- The key state that a replayed key is translated with.
unfoldable pub unpack_mods : ℕ → KeyState
unpack_mods m vk =
    if vk == vk_shift
    then (if m % 2 == 1 then 0x80 else 0)
    else if vk == vk_capital
    then (if m / 2 % 2 == 1 then 0x01 else 0)
    else if vk == vk_control
    then (if m / 4 % 2 == 1 then 0x80 else 0)
    else if vk == vk_menu
    then (if m / 8 % 2 == 1 then 0x80 else 0)
    else 0

-- A buffered key with its modifiers: `pendingVks_` and `pendingMods_`.
pub record PendingKey : Type 0 where
  pub vk : ℕ
  pub mods : ℕ

pub record Detector : Type 0 where
  pub chromium_class_active : Bool
  pub pending_reset : Bool
  pub prev_state : KeyState
  pub pending : List PendingKey
  pub prev_hook_fire_count : ℕ
  pub observed_key_downs : ℕ
  pub accumulated_drift : ℕ
  pub last_reinstall_tick_ms : ℕ
  pub baselines_valid : Bool

pub record PollInputs : Type 0 where
  pub now_ms : ℕ
  pub keyboard_state : Option KeyState
  pub hook_fire_count : ℕ
  pub translate_vk_to_char : ℕ → KeyState → ℕ

pub record Polled : Type 0 where
  pub detector : Detector
  pub injected : Wstring
  pub reinstall : Bool

-- A poll that asks for nothing.
abbrev pub quiet : Detector → Polled
quiet d = record { detector = d; injected = []; reinstall = false }

unfoldable pub set_chromium_class_active : Bool → Detector → Detector
set_chromium_class_active active d =
    if d.chromium_class_active && not active
    then record d { chromium_class_active = active; pending_reset = true }
    else record d { chromium_class_active = active }

unfoldable pub reset_detector : Detector → Detector
reset_detector d = record d { baselines_valid = false; accumulated_drift = 0; pending = [] }

unfoldable pub establish_baselines : PollInputs → Detector → Detector
establish_baselines i d = record d {
  prev_state = elim i.keyboard_state [ some s ↦ s | none ↦ λ vk. 0 ];
  prev_hook_fire_count = i.hook_fire_count;
  observed_key_downs = 0;
  accumulated_drift = 0;
  pending = [];
  last_reinstall_tick_ms = 0;
  baselines_valid = true;
}

-- The trackable keys that have gone down, from a key on, for a number of keys.
unfoldable pub key_downs : KeyState → KeyState → ℕ → ℕ → List ℕ
key_downs prev now vk zero = []
key_downs prev now vk (suc n) =
    let rest = key_downs prev now (suc vk) n in
    if is_trackable_vk vk && not (is_key_down_byte (prev vk)) && is_key_down_byte (now vk)
    then vk ∷ rest
    else rest

-- The keys of the poll are buffered while there is room.
unfoldable pub buffer_keys : List ℕ → ℕ → List PendingKey → List PendingKey
buffer_keys vks mods pending =
    take pending_vk_cap (pending ++ map (λ k. record { vk = k; mods = mods }) vks)

-- The change of the drift and of the buffer, from the keys that went down and the calls of the hook.
unfoldable pub update_drift : KeyState → List ℕ → ℕ → Detector → Detector
update_drift now vks delta d =
    if ltb delta (length vks)
    then record d {
      accumulated_drift = d.accumulated_drift + (length vks - delta);
      pending =
          if delta == 0
          then buffer_keys (take pending_vk_cap vks) (pack_mods now) d.pending
          else d.pending;
    }
    else if ltb (length vks) delta
    then (let overshoot = delta - length vks in
        if ltb overshoot d.accumulated_drift
        then record d { accumulated_drift = d.accumulated_drift - overshoot }
        else record d { accumulated_drift = 0; pending = [] })
    else d

-- The characters of the buffered keys, without those that have none.
unfoldable pub ghost_chars : (ℕ → KeyState → ℕ) → List PendingKey → Wstring
ghost_chars translate [] = []
ghost_chars translate (k ∷ pending) =
    let ch = translate k.vk (unpack_mods k.mods) in
    let rest = ghost_chars translate pending in if ch == 0 then rest else ch ∷ rest

-- The last step: above the tolerance, the ghosts are injected and the hook is installed again.
unfoldable pub escalate : PollInputs → Detector → Polled
escalate i d = if leb d.accumulated_drift drift_tolerance then quiet d else record {
  detector = record d { last_reinstall_tick_ms = i.now_ms; accumulated_drift = 0; pending = [] };
  injected = ghost_chars i.translate_vk_to_char d.pending;
  reinstall = true;
}

-- `hookCountNow - prevHookFireCount_` in 64 bits.
abbrev pub hook_count_delta : PollInputs → Detector → ℕ
hook_count_delta i d = (i.hook_fire_count + (2 ^ 64 - d.prev_hook_fire_count % 2 ^ 64)) % 2 ^ 64

-- `nowMs - lastReinstallTickMs_` in 32 bits.
abbrev pub in_cooldown : PollInputs → Detector → Bool
in_cooldown i d =
    not (d.last_reinstall_tick_ms == 0)
    && ltb ((i.now_ms + (2 ^ 32 - d.last_reinstall_tick_ms % 2 ^ 32)) % 2 ^ 32)
        reinstall_cooldown_ms

-- A poll with the keyboard state at hand.
unfoldable pub compare_state : PollInputs → KeyState → Detector → Polled
compare_state i now d =
    let vks = key_downs d.prev_state now 0 256 in
    let delta = hook_count_delta i d in
    escalate i (
      update_drift now vks delta
        (record d { prev_state = now; prev_hook_fire_count = i.hook_fire_count }))

-- A poll with baselines, and with what the reset asked of it done.
unfoldable pub poll_steady : PollInputs → Detector → Polled
poll_steady i d =
    if not d.baselines_valid
    then quiet (establish_baselines i d)
    else if in_cooldown i d
    then quiet d
    else elim i.keyboard_state [ none ↦ quiet d | some now ↦ compare_state i now d ]

-- `pendingReset_.exchange(false)` and what follows.
abbrev pub consume_reset : Detector → Detector
consume_reset d =
    if d.pending_reset
    then record d {
      pending_reset = false;
      baselines_valid = false;
      accumulated_drift = 0;
      pending = [];
    }
    else d

unfoldable pub poll : PollInputs → Detector → Polled
poll i d = if not d.chromium_class_active then quiet d else poll_steady i (consume_reset d)
