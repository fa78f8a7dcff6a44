-- ===== src/Hotkeys/StorageLaws.antt =====
-- What is saved is loaded again: src/core/hotkey/HotkeyRegistry.cpp.
use nexus_key.Base.{
  ◌%◌, ◌^◌, ◌<◌, ◌≡◌, ◌≢◌, ◌∙◌, refl, sym, ap, Bool, true, false, ◌==◌, if◌then◌else◌, Option, none,
  some, Bool-cases, inl, inr, List, [], ◌∷◌, ◌++◌, append-nil, append_assoc, map, arith,
}
use nexus_key.Hotkeys.{
  Intent, cancel_composition, skip_macro, toggle_enabled, same_intent, all_intents, Trigger,
  trigger, HotkeyRegistry, add_trigger, is_enabled, set_enabled, triggers_for,
}
use nexus_key.Hotkeys.Toml.{Toml, IsToml}
use nexus_key.Hotkeys.Storage.{
  intent_to_string, parse_intent, intent_state_key, then_get, add_row, load_trigger, load_row,
  load_rows, load, save_trigger, save_row, save_rows, save, load_flags, load_enabled, save_flags,
  save_enabled,
}

-- A trigger of 32-bit numbers whose key is not 0.
pub record IsStorable (t : Trigger) : Type 0 where
  pub vk_narrow : t.vk < 2 ^ 32
  pub vk_set : t.vk ≢ 0
  pub mods_narrow : t.mods < 2 ^ 32

abbrev pub AllStorable : List Trigger → Type 0
AllStorable [] = Unit
AllStorable (t ∷ ts) = IsStorable t × AllStorable ts

parse_intent-intent_to_string : (i : Intent) → parse_intent (intent_to_string i) ≡ some i
unfolding parse_intent intent_to_string
parse_intent-intent_to_string cancel_composition = refl
parse_intent-intent_to_string skip_macro = refl
parse_intent-intent_to_string toggle_enabled = refl

-- The trigger of a row for an intent, if the row is read.
abbrev of_row : Option (Intent × Trigger) → Intent → List Trigger
of_row none i = []
of_row (some (j, t)) i = if same_intent j i then t ∷ [] else []

add_row-triggers :
    (o : Option (Intent × Trigger)) (r : HotkeyRegistry) (i : Intent)
    → (add_row o r).triggers i ≡ r.triggers i ++ of_row o i
unfolding add_trigger
add_row-triggers none r i = sym (append-nil (r.triggers i))
add_row-triggers (some (j, t)) r i = elim (Bool-cases (same_intent j i)) [
  | inl s ↦ rw s refl
  | inr s ↦ rw s (sym (append-nil (r.triggers i)))
]

-- The triggers of each intent, taken for one.
of_each :
    (r : HotkeyRegistry) (i : Intent)
    → (if same_intent cancel_composition i then r.triggers cancel_composition else [])
        ++ ((if same_intent skip_macro i then r.triggers skip_macro else [])
            ++ ((if same_intent toggle_enabled i then r.triggers toggle_enabled else []) ++ []))
      ≡ r.triggers i
of_each r cancel_composition = append-nil (r.triggers cancel_composition)
of_each r skip_macro = append-nil (r.triggers skip_macro)
of_each r toggle_enabled = append-nil (r.triggers toggle_enabled)

module _ (toml : Toml) (u : IsToml toml) where
  load_trigger-narrow :
      (t : Trigger) (d : Bool)
      → t.vk % 2 ^ 32 ≡ t.vk
      → t.mods % 2 ^ 32 ≡ t.mods
      → (t.vk == 0) ≡ false
      → t.double_tap ≡ d
      → load_trigger toml (save_trigger toml t) ≡ some t
  unfolding load_trigger save_trigger
  load_trigger-narrow t true v m z e =
      simp (e, u.get-insert, u.get-empty, u.integer_of, u.boolean_of, v, m, z)
        (ap (λ d. some (trigger t.vk t.mods d)) (sym e))
  load_trigger-narrow t false v m z e =
      simp (e, u.get-insert, u.get-empty, u.integer_of, v, m, z)
        (ap (λ d. some (trigger t.vk t.mods d)) (sym e))

  load_trigger-save_trigger :
      (t : Trigger) → IsStorable t → load_trigger toml (save_trigger toml t) ≡ some t
  load_trigger-save_trigger t h =
      load_trigger-narrow t t.double_tap (omega (arith, h.vk_narrow)) (omega (arith, h.mods_narrow))
        (ground (arith, h.vk_set)) refl

  load_row-save_row :
      (i : Intent) (t : Trigger) → IsStorable t → load_row toml (save_row toml i t) ≡ some (i, t)
  unfolding load_row save_row
  load_row-save_row i t h =
      let p = load_trigger-save_trigger t h in
      let q = parse_intent-intent_to_string i in
      simp (u.table_of, u.get-insert, u.get-empty, u.string_of, p, q) refl

  -- The triggers of the rows that are read, for an intent.
  abbrev collected : List toml.Node → Intent → List Trigger
  collected [] i = []
  collected (node ∷ cfg) i = of_row (load_row toml node) i ++ collected cfg i

  load_rows-collected :
      (cfg : List toml.Node) (r : HotkeyRegistry) (i : Intent)
      → (load_rows toml cfg r).triggers i ≡ r.triggers i ++ collected cfg i
  unfolding load_rows
  load_rows-collected [] r i = sym (append-nil (r.triggers i))
  load_rows-collected (node ∷ cfg) r i =
      load_rows-collected cfg (add_row (load_row toml node) r) i
      ∙ ap (λ l. l ++ collected cfg i) (add_row-triggers (load_row toml node) r i)
      ∙ append_assoc (r.triggers i) (of_row (load_row toml node) i) (collected cfg i)

  collected-append :
      (c d : List toml.Node) (i : Intent) → collected (c ++ d) i ≡ collected c i ++ collected d i
  collected-append [] d i = refl
  collected-append (n ∷ c) d i =
      ap (λ l. of_row (load_row toml n) i ++ l) (collected-append c d i)
      ∙ sym (append_assoc (of_row (load_row toml n) i) (collected c i) (collected d i))

  collected-rows :
      (j : Intent) (ts : List Trigger) (i : Intent)
      → AllStorable ts
      → collected (map (save_row toml j) ts) i ≡ (if same_intent j i then ts else [])
  collected-rows j [] i h = ground arith
  collected-rows j (t ∷ ts) i h =
      let r = collected-rows j ts i h.1 in
      let e = load_row-save_row j t h.0 in
      rw (collected, e, r)
        (elim (Bool-cases (same_intent j i)) [ inl s ↦ rw s refl | inr s ↦ rw s refl ])

  collected-saved :
      (r : HotkeyRegistry) (i : Intent)
      → ((j : Intent) → AllStorable (r.triggers j))
      → collected (save_rows toml r all_intents) i ≡ r.triggers i
  unfolding save_rows
  collected-saved r i h =
      let c = collected-rows cancel_composition (r.triggers cancel_composition) i (h _) in
      let s = collected-rows skip_macro (r.triggers skip_macro) i (h _) in
      let t = collected-rows toggle_enabled (r.triggers toggle_enabled) i (h _) in
      simp (collected-append, c, s, t) (of_each r i)

  get-saved :
      (r : HotkeyRegistry) (tbl : toml.Table) (i : Intent)
      → then_get (toml.get (intent_state_key i) (save_enabled toml r tbl)) toml.as_boolean
        ≡ some (is_enabled r i)
  unfolding save_enabled save_flags intent_state_key
  get-saved r tbl cancel_composition = simp (u.get-assign, u.boolean_of) refl
  get-saved r tbl skip_macro = simp (u.get-assign, u.boolean_of) refl
  get-saved r tbl toggle_enabled = simp (u.get-assign, u.boolean_of) refl

  flags-loaded :
      (tbl : toml.Table) (r : HotkeyRegistry) (f : Intent → Bool) (i : Intent)
      → ((j : Intent) → then_get (toml.get (intent_state_key j) tbl) toml.as_boolean ≡ some (f j))
      → is_enabled (load_flags toml tbl all_intents r) i ≡ f i
  unfolding load_flags set_enabled is_enabled
  flags-loaded tbl r f cancel_composition g =
      rw (load_flags, g cancel_composition, g skip_macro, g toggle_enabled) refl
  flags-loaded tbl r f skip_macro g =
      rw (load_flags, g cancel_composition, g skip_macro, g toggle_enabled) refl
  flags-loaded tbl r f toggle_enabled g =
      rw (load_flags, g cancel_composition, g skip_macro, g toggle_enabled) refl

  -- Where tomlplusplus behaves as documented: a registry whose triggers are of 32-bit numbers with a key
  -- other than 0, saved to an empty array and loaded into any registry, has the same triggers for every
  -- intent, in the same order; and its enabled flags, saved to a table and loaded from it, are
  -- the same for every intent.
  pub load-save :
      (r old : HotkeyRegistry) (tbl : toml.Table) (i : Intent)
      → ((j : Intent) → AllStorable (r.triggers j))
      → (triggers_for (load toml (save toml r []) old) i ≡ triggers_for r i)
        × (is_enabled (load_enabled toml (save_enabled toml r tbl) old) i ≡ is_enabled r i)
  unfolding triggers_for load save load_enabled
  load-save r old tbl i h =
      let e =
        load_rows-collected (save_rows toml r all_intents) (record old { triggers = λ i. [] }) i in
      (
        e ∙ collected-saved r i h,
        flags-loaded (save_enabled toml r tbl) (record old { enabled = λ i. none }) (is_enabled r) i
            (get-saved r tbl),
      )
