-- ===== src/Tests/Converters.antt =====
-- The theorems on code tables, hotkeys and the decisions around the engine, at concrete inputs.
use nexus_key.Base.{
  ℕ, ◌-◌, ◌<◌, ◌≡◌, ◌≢◌, ◌↔◌, refl, Bool, true, false, ◌&&◌, ◌==◌, if◌then◌else◌, Option, none,
  some, List, [], ◌∷◌, map, Wstring, wstring_eq, arith, ◌<|>◌, Bool-cases, inl, inr,
}
use nexus_key.Config.{tcvn3, vni_windows}
use nexus_key.Letters.{compose, to_lower_vietnamese}
use nexus_key.Converter.{encode_string, find}
use nexus_key.Converter.CaseText.{remove_diacritics}
use nexus_key.Converter.Diacritics.{remove_diacritics-compose}
use nexus_key.Converter.Reverse.{decode_string}
use nexus_key.Converter.RoundTrip.{decode_string-encode_string}
use nexus_key.Converter.Tcvn3.{decode_string-tcvn3}
use nexus_key.Hotkeys.{
  Intent, cancel_composition, skip_macro, toggle_enabled, no_hotkeys, trigger, defaults,
  triggers_for, is_enabled, matches, from_legacy_fields, add_trigger, set_enabled,
}
use nexus_key.Hotkeys.Toml.{Toml, IsToml}
use nexus_key.Hotkeys.Storage.{load, save, load_enabled, save_enabled}
use nexus_key.Hotkeys.StorageLaws.{AllStorable, IsStorable, load-save}
use nexus_key.Hotkeys.Legacy.{is_escape_down, is_method_event, matches-from_legacy_fields}
use nexus_key.Decisions.SmartSwitch.{init_defaults, get_mode, set_mode, SmartSwitchState}
use nexus_key.Decisions.SmartSwitchLaws.{is_stored, get_mode-set_mode}
use nexus_key.Decisions.Cjk
use nexus_key.Decisions.Cjk.{Mode, on_event, on_events, layout, enter-leave}
use nexus_key.Decisions.Formula
use nexus_key.Decisions.Formula.{
  FormulaKeyKind, equals_start, other_content, navigate, OpenedByEquals, in_formula_iff,
}
use nexus_key.Decisions.Exemption.{is_custom_modifier, exempt_key-action_of}
use nexus_key.Engine.Core.{Engine}
use nexus_key.Engine.PushChar.{action_of}
use nexus_key.Action.{literal, tone_acute}
use nexus_key.Config.{user_defined}
use nexus_key.Decisions.CommitUndo.{is_commit_undo_exempt_key, is_commit_undo_exempt_action}
use nexus_key.Tests.Fixtures.{fresh, settings, letter_at, locale, locale-FollowsUnicode}
use nexus_key.State.{CharState, circumflex, acute}

-- "Việt", in one word of VNI, with the e of two units.
abbrev viet : Wstring
viet = b'V' ∷ b'i' ∷ 0x1EC7 ∷ b't' ∷ []

vni_not_tcvn3 : vni_windows ≢ tcvn3
vni_not_tcvn3 e = ground arith

decode_string-encode_string_example :
    decode_string locale (encode_string viet vni_windows) vni_windows ≡ viet
unfolding find
decode_string-encode_string_example =
    decode_string-encode_string locale vni_windows viet vni_not_tcvn3 refl

decode_string-tcvn3_example :
    map (to_lower_vietnamese locale) (decode_string locale (encode_string viet tcvn3) tcvn3)
    ≡ map (to_lower_vietnamese locale) viet
unfolding find
decode_string-tcvn3_example = decode_string-tcvn3 locale viet locale-FollowsUnicode refl

-- The letters of "Tiến".
abbrev tien_title : List CharState
tien_title =
    record (letter_at b't' 0) { is_upper = true }
    ∷ letter_at b'i' 1
    ∷ record (letter_at b'e' 2) { mod_ = circumflex; tone = acute }
    ∷ letter_at b'n' 3
    ∷ []

remove_diacritics-compose_example :
    remove_diacritics locale (map (compose locale) tien_title)
    ≡ map (λ s. if s.is_upper then s.base - 0x20 else s.base) tien_title
unfolding nexus_key.State.is_vowel_base
remove_diacritics-compose_example =
    remove_diacritics-compose locale tien_title locale-FollowsUnicode refl

-- Nodes of a document, with tables as lists of entries.
mutual
  data Value : Type 0 where
    text : Wstring → Value
    integer : ℕ → Value
    boolean : Bool → Value
    table : Entries → Value

  data Entries : Type 0 where
    no_entries : Entries
    entry : Wstring → Value → Entries → Entries

abbrev text_of : Value → Option Wstring
text_of (text s) = some s
text_of _ = none

abbrev integer_of : Value → Option ℕ
integer_of (integer n) = some n
integer_of _ = none

abbrev boolean_of : Value → Option Bool
boolean_of (boolean b) = some b
boolean_of _ = none

abbrev table_of : Value → Option Entries
table_of (table t) = some t
table_of _ = none

abbrev value_at : Wstring → Entries → Option Value
value_at k no_entries = none
value_at k (entry j v rest) = if wstring_eq j k then some v else value_at k rest

-- An entry at the end counts only where there is none before it.
abbrev put_last : Wstring → Value → Entries → Entries
put_last k v no_entries = entry k v no_entries
put_last k v (entry j w rest) = entry j w (put_last k v rest)

abbrev document : Toml
document = record {
  Node = Value;
  Table = Entries;
  as_table = table_of;
  as_string = text_of;
  as_integer = integer_of;
  as_boolean = boolean_of;
  of_table = table;
  of_string = text;
  of_integer = integer;
  of_boolean = boolean;
  get = value_at;
  empty_table = no_entries;
  insert = put_last;
  insert_or_assign = entry;
}

value_at-put_last :
    (k j : Wstring) (v : Value) (t : Entries)
    → value_at j (put_last k v t)
      ≡ (if wstring_eq k j then value_at j t <|> some v else value_at j t)
value_at-put_last k j v no_entries = refl
value_at-put_last k j v (entry i w rest) =
    let r = value_at-put_last k j v rest in
    elim (Bool-cases (wstring_eq i j)) [ inl e ↦ rw e (ground arith) | inr e ↦ rw e r ]

document-IsToml : IsToml document
document-IsToml = record {
  table_of = λ x. refl;
  string_of = λ x. refl;
  integer_of = λ x. refl;
  boolean_of = λ x. refl;
  get-empty = λ k. refl;
  get-insert = value_at-put_last;
  get-assign = λ k j n x. refl;
}

default-IsStorable :
    (vk : ℕ) (double_tap : Bool) → 0 < vk → vk < 0x100 → IsStorable (trigger vk 0 double_tap)
default-IsStorable vk double_tap h k = record {
  vk_narrow = omega (arith, k);
  vk_set = λ e. omega (arith, h, e);
  mods_narrow = omega arith;
}

defaults-AllStorable : (i : Intent) → AllStorable (defaults.triggers i)
unfolding defaults add_trigger set_enabled
defaults-AllStorable cancel_composition =
    (default-IsStorable 0x1B false (omega arith) (omega arith), _)
defaults-AllStorable skip_macro = (default-IsStorable 0x1B false (omega arith) (omega arith), _)
defaults-AllStorable toggle_enabled =
    (default-IsStorable 0x11 false (omega arith) (omega arith), alt_storable)
  where
    alt_storable : AllStorable (trigger 0x12 0 true ∷ [])
    alt_storable = (default-IsStorable 0x12 true (omega arith) (omega arith), _)

load-save_example :
    (triggers_for (load document (save document defaults []) no_hotkeys) toggle_enabled
      ≡ triggers_for defaults toggle_enabled)
    × (is_enabled
          (load_enabled document (save_enabled document defaults no_entries) no_hotkeys)
          toggle_enabled
        ≡ is_enabled defaults toggle_enabled)
load-save_example =
    load-save document document-IsToml defaults no_hotkeys no_entries toggle_enabled
      defaults-AllStorable

matches-from_legacy_fields_example :
    let r = from_legacy_fields true false 2 in
    (matches r cancel_composition 0x1B 0 false false ≡ (true && is_escape_down 0x1B 0 false false))
    × (matches r skip_macro 0x1B 0 false false ≡ (false && is_escape_down 0x1B 0 false false))
    × (matches r toggle_enabled 0x1B 0 false false ≡ is_method_event 2 0x1B 0 false false)
matches-from_legacy_fields_example = matches-from_legacy_fields true false 2 0x1B 0 false false

-- A table with the modes of two applications.
abbrev two_modes : SmartSwitchState
two_modes = set_mode 7 true (set_mode 5 false init_defaults)

get_mode-set_mode_example :
    get_mode 5 (set_mode 7 false two_modes)
    ≡ (if 7 == 5 && is_stored two_modes 7 then some false else get_mode 5 two_modes)
get_mode-set_mode_example = get_mode-set_mode two_modes 7 5 false

abbrev typing_vietnamese : Mode
typing_vietnamese = record {
  layout_suppressed = false;
  mode_before_cjk = false;
  vietnamese_mode = true;
}

-- The user switches to Vietnamese, and an excluded application passes, under a CJK layout.
abbrev meanwhile : List Cjk.Event
meanwhile = Cjk.chosen true ∷ layout true true false true ∷ []

enter-leave_example :
    let entered = on_event typing_vietnamese (layout false false false true) in
    let left = on_event (on_events entered meanwhile) (layout true false false true) in
    (entered.vietnamese_mode ≡ false)
    × (left.layout_suppressed ≡ false)
    × (left.vietnamese_mode ≡ true)
enter-leave_example = enter-leave typing_vietnamese meanwhile refl refl

abbrev sum_formula : List FormulaKeyKind
sum_formula = navigate ∷ other_content ∷ equals_start ∷ []

in_formula_iff_example :
    ((Formula.after sum_formula).in_formula ≡ true) ↔ OpenedByEquals sum_formula
in_formula_iff_example = in_formula_iff sum_formula

-- e with a dot below and a circumflex is ê followed by the mark, in VNI.
encoded_viet : encode_string viet vni_windows ≡ b'V' ∷ b'i' ∷ b'e' ∷ 0xE4 ∷ b't' ∷ []
unfolding encode_string nexus_key.Converter.convert_char
encoded_viet = refl

-- Escape cancels the composition, and Control alone switches the engine when it is released.
matches-defaults :
    (matches defaults cancel_composition 0x1B 0 false false ≡ true)
    × (matches defaults toggle_enabled 0x11 0 false true ≡ true)
    × (matches defaults toggle_enabled 0x11 0 false false ≡ false)
unfolding matches is_enabled defaults set_enabled nexus_key.Hotkeys.some_matches add_trigger
    nexus_key.Hotkeys.is_modifier_key
matches-defaults = (refl, refl, refl)

stored_mode : get_mode 7 two_modes ≡ some true
unfolding get_mode nexus_key.Decisions.SmartSwitch.find_slot nexus_key.Decisions.SmartSwitch.rounds
    set_mode
stored_mode = refl

formula_open : (Formula.after sum_formula).in_formula ≡ true
unfolding Formula.next_formula_segment_state
formula_open = refl

-- An empty engine with a key map of the user, in which 1 is the acute tone.
abbrev mapped : Engine
mapped = record fresh {
  config = record settings {
    input_method = user_defined;
    custom_key_map = λ c. if c == b'1' then tone_acute else literal;
  };
}

exempt_key-action_of_example :
    is_commit_undo_exempt_key b'1' user_defined false false
      (is_custom_modifier user_defined mapped.config.custom_key_map b'1')
    ≡ is_commit_undo_exempt_action (action_of locale b'1' mapped)
exempt_key-action_of_example = exempt_key-action_of locale mapped b'1' refl refl refl
