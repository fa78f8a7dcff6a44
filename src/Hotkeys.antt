-- ===== src/Hotkeys.antt =====
-- The registry of hotkeys: src/core/hotkey/HotkeyRegistry.h and HotkeyRegistry.cpp. An intent without
-- triggers in the map has the empty list; an intent without an entry among the enabled is `none`.
use nexus_key.Base.{
  ℕ, ◌+◌, Bool, true, false, not, ◌&&◌, ◌||◌, ◌==◌, if◌then◌else◌, Option, none, some, List, [],
  ◌∷◌, ◌++◌,
}
pub mod Toml
pub mod Storage
pub mod StorageLaws
pub mod Legacy

pub data Intent : Type 0 where
  cancel_composition skip_macro toggle_enabled : Intent

-- The underlying value, by which intents are compared.
abbrev pub intent_value : Intent → ℕ
intent_value cancel_composition = 0
intent_value skip_macro = 1
intent_value toggle_enabled = 2

abbrev pub same_intent : Intent → Intent → Bool
same_intent i j = intent_value i == intent_value j

abbrev pub all_intents : List Intent
all_intents = cancel_composition ∷ skip_macro ∷ toggle_enabled ∷ []

pub record Trigger : Type 0 where
  pub vk : ℕ
  pub mods : ℕ
  pub double_tap : Bool

abbrev pub trigger : ℕ → ℕ → Bool → Trigger
trigger vk mods double_tap = record { vk = vk; mods = mods; double_tap = double_tap }

pub record HotkeyRegistry : Type 0 where
  pub triggers : Intent → List Trigger
  pub enabled : Intent → Option Bool

abbrev pub no_hotkeys : HotkeyRegistry
no_hotkeys = record { triggers = λ i. []; enabled = λ i. none }

unfoldable pub is_modifier_key : ℕ → Bool
is_modifier_key vk = vk == 0x10 || vk == 0x11 || vk == 0x12 || vk == 0x5B || vk == 0x5C

unfoldable pub triggers_for : HotkeyRegistry → Intent → List Trigger
triggers_for r intent = r.triggers intent

unfoldable pub add_trigger : Intent → Trigger → HotkeyRegistry → HotkeyRegistry
add_trigger intent t r = record r {
  triggers = λ i. if same_intent intent i then r.triggers i ++ t ∷ [] else r.triggers i;
}

unfoldable pub is_enabled : HotkeyRegistry → Intent → Bool
is_enabled r intent = elim (r.enabled intent) [ none ↦ true | some b ↦ b ]

unfoldable pub set_enabled : Intent → Bool → HotkeyRegistry → HotkeyRegistry
set_enabled intent enabled r = record r {
  enabled = λ i. if same_intent intent i then some enabled else r.enabled i;
}

unfoldable pub clear : HotkeyRegistry → HotkeyRegistry
clear r = record { triggers = λ i. []; enabled = λ i. none }

-- The loop of `Matches`.
unfoldable pub some_matches : List Trigger → ℕ → ℕ → Bool → Bool → Bool
some_matches [] vk mods is_double_tap key_up = false
some_matches (t ∷ triggers) vk mods is_double_tap key_up =
    let rest = some_matches triggers vk mods is_double_tap key_up in
    if not (t.vk == vk)
    then rest
    else if t.double_tap
    then (if is_double_tap && mods == t.mods then true else rest)
    else if is_modifier_key t.vk
    then (if key_up && not is_double_tap && mods == t.mods then true else rest)
    else if not key_up && not is_double_tap && mods == t.mods
    then true
    else rest

unfoldable pub matches : HotkeyRegistry → Intent → ℕ → ℕ → Bool → Bool → Bool
matches r intent vk mods is_double_tap key_up =
    if not (is_enabled r intent)
    then false
    else some_matches (r.triggers intent) vk mods is_double_tap key_up

unfoldable pub defaults : HotkeyRegistry
defaults = set_enabled toggle_enabled true (
    set_enabled skip_macro true (
      set_enabled cancel_composition true (
        add_trigger toggle_enabled (trigger 0x12 0 true) (
          add_trigger toggle_enabled (trigger 0x11 0 false) (
            add_trigger skip_macro (trigger 0x1B 0 false)
              (add_trigger cancel_composition (trigger 0x1B 0 false) no_hotkeys))))))

-- The bindings of `FromLegacyFields`, in its order.
abbrev add_if : Bool → Intent → Trigger → HotkeyRegistry → HotkeyRegistry
add_if true intent t r = add_trigger intent t r
add_if false intent t r = r

unfoldable pub from_legacy_fields : Bool → Bool → ℕ → HotkeyRegistry
from_legacy_fields esc_restore_raw_enabled temp_off_macro_by_esc temp_off_method_value =
    let escape =
      add_if temp_off_macro_by_esc skip_macro (trigger 0x1B 0 false)
        (add_if esc_restore_raw_enabled cancel_composition (trigger 0x1B 0 false) no_hotkeys) in
    let bound =
      if temp_off_method_value == 1
      then add_trigger toggle_enabled (trigger 0x12 0 true) escape
      else if temp_off_method_value == 2
      then add_trigger toggle_enabled (trigger 0x11 0 false) escape
      else escape in
    set_enabled toggle_enabled (not (temp_off_method_value == 0)) (
      set_enabled skip_macro temp_off_macro_by_esc
        (set_enabled cancel_composition esc_restore_raw_enabled bound))
