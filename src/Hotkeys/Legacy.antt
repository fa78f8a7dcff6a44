-- ===== src/Hotkeys/Legacy.antt =====
-- The registry of the old settings, and what it matches: `FromLegacyFields` and `Matches` of
-- src/core/hotkey/HotkeyRegistry.cpp.
use nexus_key.Base.{
  ℕ, ◌≡◌, refl, Bool, true, false, not, ◌&&◌, ◌==◌, if◌then◌else◌, List, [], ◌∷◌, arith, Bool-cases,
  inl, inr,
}
use nexus_key.Hotkeys.{
  cancel_composition, skip_macro, toggle_enabled, Trigger, trigger, add_trigger, set_enabled,
  is_enabled, is_modifier_key, some_matches, matches, from_legacy_fields,
}

-- An event that is Escape pressed without modifiers.
abbrev pub is_escape_down : ℕ → ℕ → Bool → Bool → Bool
is_escape_down vk mods is_double_tap key_up =
    vk == 0x1B && mods == 0 && not is_double_tap && not key_up

-- The event of the method for switching off: two taps of Alt for 1, and Control released for 2.
abbrev pub is_method_event : ℕ → ℕ → ℕ → Bool → Bool → Bool
is_method_event method vk mods is_double_tap key_up =
    if method == 1
    then vk == 0x12 && mods == 0 && is_double_tap
    else if method == 2
    then vk == 0x11 && mods == 0 && not is_double_tap && key_up
    else false

abbrev of_escape : Bool → List Trigger
of_escape true = trigger 0x1B 0 false ∷ []
of_escape false = []

abbrev of_method : ℕ → List Trigger
of_method method =
    if method == 1
    then trigger 0x12 0 true ∷ []
    else if method == 2
    then trigger 0x11 0 false ∷ []
    else []

from_legacy_fields-triggers :
    (esc macro_off : Bool) (method : ℕ)
    → let r = from_legacy_fields esc macro_off method in
      (r.triggers cancel_composition ≡ of_escape esc)
      × (r.triggers skip_macro ≡ of_escape macro_off)
      × (r.triggers toggle_enabled ≡ of_method method)
unfolding from_legacy_fields set_enabled add_trigger
from_legacy_fields-triggers true true method = ground arith
from_legacy_fields-triggers true false method = ground arith
from_legacy_fields-triggers false true method = ground arith
from_legacy_fields-triggers false false method = ground arith

escape-matches :
    (esc : Bool) (vk mods : ℕ) (is_double_tap key_up : Bool)
    → (if not esc then false else some_matches (of_escape esc) vk mods is_double_tap key_up)
      ≡ (esc && is_escape_down vk mods is_double_tap key_up)
unfolding some_matches is_modifier_key
escape-matches true vk mods is_double_tap key_up = ground arith
escape-matches false vk mods is_double_tap key_up = refl

method-matches :
    (method vk mods : ℕ) (is_double_tap key_up : Bool)
    → (if not (not (method == 0))
        then false
        else some_matches (of_method method) vk mods is_double_tap key_up)
      ≡ is_method_event method vk mods is_double_tap key_up
unfolding some_matches is_modifier_key
method-matches method vk mods is_double_tap key_up = elim (Bool-cases (method == 1)) [
  | inl e ↦ rw e (ground arith)
  | inr e ↦ rw e (elim (Bool-cases (method == 2)) [
    | inl f ↦ rw f (ground arith)
    | inr f ↦ rw f (ground arith)
  ])
]

from_legacy_fields-enabled :
    (esc macro_off : Bool) (method : ℕ)
    → let r = from_legacy_fields esc macro_off method in
      (is_enabled r cancel_composition ≡ esc)
      × (is_enabled r skip_macro ≡ macro_off)
      × (is_enabled r toggle_enabled ≡ not (method == 0))
unfolding from_legacy_fields set_enabled is_enabled
from_legacy_fields-enabled esc macro_off method = (refl, refl, refl)

-- A registry made of the old settings matches an event exactly as they say: Escape pressed without
-- modifiers cancels the composition, and skips the macro, where the setting for it is on; and the
-- engine is switched by the event of its method.
pub matches-from_legacy_fields :
    (esc macro_off : Bool) (method vk mods : ℕ) (is_double_tap key_up : Bool)
    → let r = from_legacy_fields esc macro_off method in
      (matches r cancel_composition vk mods is_double_tap key_up
        ≡ (esc && is_escape_down vk mods is_double_tap key_up))
      × (matches r skip_macro vk mods is_double_tap key_up
          ≡ (macro_off && is_escape_down vk mods is_double_tap key_up))
      × (matches r toggle_enabled vk mods is_double_tap key_up
          ≡ is_method_event method vk mods is_double_tap key_up)
unfolding matches
matches-from_legacy_fields esc macro_off method vk mods is_double_tap key_up =
    let t = from_legacy_fields-triggers esc macro_off method in
    let e = from_legacy_fields-enabled esc macro_off method in
    (
      rw (matches, e.0, t.0) (escape-matches esc vk mods is_double_tap key_up),
      rw (matches, e.1, t.1) (escape-matches macro_off vk mods is_double_tap key_up),
      rw (matches, e.2, t.2) (method-matches method vk mods is_double_tap key_up),
    )
