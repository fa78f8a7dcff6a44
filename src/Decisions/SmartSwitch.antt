-- ===== src/Decisions/SmartSwitch.antt =====
-- The table of application modes in shared memory: src/core/SmartSwitchState.h and
-- SmartSwitchManager.cpp. The array is a function from slots; a mapping that is not there is `none`.
-- A program reads and writes the table alone; `towlower` of the C library is a parameter.
use nexus_key.Base.{
  ℕ, zero, suc, ◌+◌, ◌*◌, ◌%◌, ◌^◌, Bool, true, false, not, ◌==◌, ltb, if◌then◌else◌, Option, none,
  some, List, [], ◌∷◌, Wstring,
}
use Prim.Native.Nat.{bit_xor}

abbrev pub max_entries : ℕ
max_entries = 64

abbrev pub magic_value : ℕ
magic_value = 0x57534D53

pub record SmartSwitchEntry : Type 0 where
  pub hash : ℕ
  pub vietnamese : ℕ

pub record SmartSwitchState : Type 0 where
  pub magic : ℕ
  pub epoch : ℕ
  pub count : ℕ
  pub entries : ℕ → SmartSwitchEntry

abbrev pub is_valid : SmartSwitchState → Bool
is_valid s = s.magic == magic_value

abbrev pub init_defaults : SmartSwitchState
init_defaults = record {
  magic = magic_value;
  epoch = 0;
  count = 0;
  entries = λ i. record { hash = 0; vietnamese = 0 };
}

-- The loop of `FnvHash`, in 32 bits.
unfoldable pub fnv_from : (ℕ → ℕ) → ℕ → Wstring → ℕ
fnv_from towlower hash [] = hash
fnv_from towlower hash (c ∷ str) =
    fnv_from towlower (bit_xor hash (towlower c) * 16777619 % 2 ^ 32) str

unfoldable pub fnv_hash : (ℕ → ℕ) → Wstring → ℕ
fnv_hash towlower str = fnv_from towlower 2166136261 str

-- The first slot with the hash, from a slot on, for a number of slots.
unfoldable pub find_slot : (ℕ → SmartSwitchEntry) → ℕ → ℕ → ℕ → Option ℕ
find_slot entries hash i zero = none
find_slot entries hash i (suc n) =
    let rest = find_slot entries hash (suc i) n in if (entries i).hash == hash then some i else rest

-- How many slots have `i < count` and `i < SMART_SWITCH_MAX_ENTRIES`.
unfoldable pub rounds : ℕ → ℕ
rounds count = if ltb count max_entries then count else max_entries

-- The loop over `i < count && i < SMART_SWITCH_MAX_ENTRIES`.
abbrev pub slot_with : SmartSwitchState → ℕ → Option ℕ
slot_with s hash = find_slot s.entries hash 0 (rounds s.count)

abbrev pub bit_of : Bool → ℕ
bit_of true = 1
bit_of false = 0

-- A write to a slot.
abbrev pub write : ℕ → SmartSwitchEntry → (ℕ → SmartSwitchEntry) → ℕ → SmartSwitchEntry
write i e entries j = if i == j then e else entries j

-- `epoch++` in 32 bits.
abbrev pub next_epoch : SmartSwitchState → ℕ
next_epoch s = (s.epoch + 1) % 2 ^ 32

-- `SetAppMode` of a name with a hash, in a table that is mapped.
unfoldable pub set_mode : ℕ → Bool → SmartSwitchState → SmartSwitchState
set_mode hash vietnamese s = elim (slot_with s hash) [
  | some i ↦ record s {
    entries = write i (record (s.entries i) { vietnamese = bit_of vietnamese }) s.entries;
    epoch = next_epoch s;
  }
  | none ↦
      if ltb s.count max_entries
      then record s {
        entries = write s.count (record { hash = hash; vietnamese = bit_of vietnamese }) s.entries;
        count = suc s.count;
        epoch = next_epoch s;
      }
      else s
]

-- The mode of a slot, if there is one.
abbrev pub mode_in : (ℕ → SmartSwitchEntry) → Option ℕ → Option Bool
mode_in entries none = none
mode_in entries (some i) = some (not ((entries i).vietnamese == 0))

unfoldable pub get_mode : ℕ → SmartSwitchState → Option Bool
get_mode hash s = mode_in s.entries (slot_with s hash)

unfoldable pub set_app_mode :
    (ℕ → ℕ) → Wstring → Bool → Option SmartSwitchState → Option SmartSwitchState
set_app_mode towlower exe_name vietnamese none = none
set_app_mode towlower exe_name vietnamese (some s) =
    some (set_mode (fnv_hash towlower exe_name) vietnamese s)

unfoldable pub get_app_mode : (ℕ → ℕ) → Wstring → Option SmartSwitchState → Option Bool
get_app_mode towlower exe_name none = none
get_app_mode towlower exe_name (some s) = get_mode (fnv_hash towlower exe_name) s

-- The loop of `LoadFromMap`: the slots, and how many are filled. The order of the map is a list.
unfoldable pub load_entries :
    (ℕ → ℕ) → List (Wstring × Bool) → ℕ → ℕ → (ℕ → SmartSwitchEntry) → (ℕ → SmartSwitchEntry) × ℕ
load_entries towlower m i zero entries = (entries, i)
load_entries towlower [] i (suc n) entries = (entries, i)
load_entries towlower ((exe_name, vietnamese) ∷ m) i (suc n) entries =
    load_entries towlower m (suc i) n (
      write i (record { hash = fnv_hash towlower exe_name; vietnamese = bit_of vietnamese })
        entries)

unfoldable pub load_from_map :
    (ℕ → ℕ) → List (Wstring × Bool) → Option SmartSwitchState → Option SmartSwitchState
load_from_map towlower m none = none
load_from_map towlower m (some s) =
    let (entries, count) = load_entries towlower m 0 max_entries s.entries in
    some (record s { entries = entries; count = count; epoch = next_epoch s })
