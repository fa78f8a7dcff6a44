-- ===== src/Hotkeys/Storage.antt =====
-- `Load`, `Save`, `LoadEnabled` and `SaveEnabled` of src/core/hotkey/HotkeyRegistry.cpp.
use nexus_key.Base.{
  ◌%◌, ◌^◌, Bool, true, false, ◌==◌, if◌then◌else◌, Option, none, some, List, [], ◌∷◌, ◌++◌, map,
  Wstring, wstring_eq, codes,
}
use nexus_key.Hotkeys.{
  Intent, cancel_composition, skip_macro, toggle_enabled, all_intents, Trigger, trigger,
  HotkeyRegistry, add_trigger, is_enabled, set_enabled,
}
use nexus_key.Hotkeys.Toml.{Toml}

unfoldable pub intent_to_string : Intent → Wstring
intent_to_string cancel_composition = codes "cancel-composition"
intent_to_string skip_macro = codes "skip-macro"
intent_to_string toggle_enabled = codes "toggle-enabled"

unfoldable pub parse_intent : Wstring → Option Intent
parse_intent s =
    if wstring_eq s (codes "cancel-composition")
    then some cancel_composition
    else if wstring_eq s (codes "skip-macro")
    then some skip_macro
    else if wstring_eq s (codes "toggle-enabled")
    then some toggle_enabled
    else none

unfoldable pub intent_state_key : Intent → Wstring
intent_state_key cancel_composition = codes "cancel_composition"
intent_state_key skip_macro = codes "skip_macro"
intent_state_key toggle_enabled = codes "toggle_enabled"

abbrev pub then_get {ℓ} : {A B : Type ℓ} → Option A → (A → Option B) → Option B
then_get none f = none
then_get (some a) f = f a

-- A value, or the value of a field that is not written.
abbrev pub or_else {ℓ} : {A : Type ℓ} → Option A → A → A
or_else none d = d
or_else (some a) d = a

-- What a row adds, if it is read.
abbrev pub add_row : Option (Intent × Trigger) → HotkeyRegistry → HotkeyRegistry
add_row none r = r
add_row (some (intent, t)) r = add_trigger intent t r

-- What a flag sets, if it is there.
abbrev pub set_flag : Option Bool → Intent → HotkeyRegistry → HotkeyRegistry
set_flag none i r = r
set_flag (some b) i r = set_enabled i b r

module _ (toml : Toml) where
  -- The trigger of a row; `none` where the loop goes on to the next row.
  unfoldable pub load_trigger : toml.Table → Option Trigger
  load_trigger table = then_get (toml.get (codes "vk") table) (λ v.
      then_get (toml.as_integer v) (λ vk.
        if vk % 2 ^ 32 == 0
        then none
        else some (
            trigger (vk % 2 ^ 32)
              (or_else (then_get (toml.get (codes "mods") table) toml.as_integer) 0 % 2 ^ 32)
              (or_else (then_get (toml.get (codes "double_tap") table) toml.as_boolean) false))))

  unfoldable pub load_row : toml.Node → Option (Intent × Trigger)
  load_row node = then_get (toml.as_table node) (λ row.
      then_get (toml.get (codes "intent") row) (λ i. then_get (toml.get (codes "trigger") row) (λ t.
        then_get (toml.as_string i) (λ name. then_get (toml.as_table t) (λ table.
          then_get (parse_intent name)
            (λ intent. then_get (load_trigger table) (λ trig. some (intent, trig))))))))

  -- The loop of `Load`.
  unfoldable pub load_rows : List toml.Node → HotkeyRegistry → HotkeyRegistry
  load_rows [] r = r
  load_rows (node ∷ cfg) r = load_rows cfg (add_row (load_row node) r)

  unfoldable pub load : List toml.Node → HotkeyRegistry → HotkeyRegistry
  load cfg r = load_rows cfg (record r { triggers = λ i. [] })

  unfoldable pub save_trigger : Trigger → toml.Table
  save_trigger t =
      let trig =
        toml.insert (codes "mods") (toml.of_integer t.mods)
          (toml.insert (codes "vk") (toml.of_integer t.vk) toml.empty_table) in
      if t.double_tap then toml.insert (codes "double_tap") (toml.of_boolean true) trig else trig

  unfoldable pub save_row : Intent → Trigger → toml.Node
  save_row intent t = toml.of_table (
      toml.insert (codes "trigger") (toml.of_table (save_trigger t))
        (toml.insert (codes "intent") (toml.of_string (intent_to_string intent)) toml.empty_table))

  -- The loop of `Save` over intents.
  unfoldable pub save_rows : HotkeyRegistry → List Intent → List toml.Node
  save_rows r [] = []
  save_rows r (i ∷ intents) = map (save_row i) (r.triggers i) ++ save_rows r intents

  unfoldable pub save : HotkeyRegistry → List toml.Node → List toml.Node
  save r cfg = cfg ++ save_rows r all_intents

  -- The loop of `LoadEnabled` over intents.
  unfoldable pub load_flags : toml.Table → List Intent → HotkeyRegistry → HotkeyRegistry
  load_flags tbl [] r = r
  load_flags tbl (i ∷ intents) r =
      load_flags tbl intents
        (set_flag (then_get (toml.get (intent_state_key i) tbl) toml.as_boolean) i r)

  unfoldable pub load_enabled : toml.Table → HotkeyRegistry → HotkeyRegistry
  load_enabled tbl r = load_flags tbl all_intents (record r { enabled = λ i. none })

  -- The loop of `SaveEnabled` over intents.
  unfoldable pub save_flags : HotkeyRegistry → List Intent → toml.Table → toml.Table
  save_flags r [] tbl = tbl
  save_flags r (i ∷ intents) tbl =
      save_flags r intents
        (toml.insert_or_assign (intent_state_key i) (toml.of_boolean (is_enabled r i)) tbl)

  unfoldable pub save_enabled : HotkeyRegistry → toml.Table → toml.Table
  save_enabled r tbl = save_flags r all_intents tbl
