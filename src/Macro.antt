-- ===== src/Macro.antt =====
-- The expansion of macros: src/core/MacroCase.cpp. The tests of <cwctype> and the case mapping are
-- parameters, and so is `CodeTableConverter::ConvertChar`; the table of macros is its search.
use nexus_key.Base.{
  ℕ, ◌+◌, ◌-◌, Bool, true, false, not, ◌&&◌, ◌||◌, ◌==◌, ltb, if◌then◌else◌, Option, none, some,
  ◌<|>◌, is_some, List, [], ◌∷◌, ◌++◌, map, Wstring, wstring_eq, length, take, any, all, get_elem?,
}
pub use nexus_key.Config.{
  CodeTable, unicode, tcvn3, vni_windows, unicode_compound, vietnamese_locale,
}
pub mod Segments
pub mod PlanLaws
pub mod Prefix

-- The functions of <cwctype> that the decision calls.
pub record Wctype : Type 0 where
  pub towlower : ℕ → ℕ
  pub iswupper : ℕ → Bool
  pub iswalpha : ℕ → Bool
  pub iswspace : ℕ → Bool

-- `CaseMapper`: `Upper` is called for one character, `Lower` for a whole text.
pub record CaseMapper : Type 0 where
  pub upper : ℕ → ℕ
  pub lower : Wstring → Wstring

abbrev pub is_unicode : CodeTable → Bool
is_unicode unicode = true
is_unicode _ = false

pub record PlanInputs : Type 0 where
  pub raw_macro_buffer : Wstring
  pub previous_composition : Wstring
  pub previous_encoded_widths : List ℕ
  pub macro_table : Wstring → Option Wstring
  pub macro_cross_commit : Bool
  pub current_code_table : CodeTable
  pub auto_caps_enabled : Bool
  pub trigger_char : ℕ
  pub clipboard_threshold : ℕ

pub record MacroPlan : Type 0 where
  pub matched : Bool
  pub is_part_of_macro : Bool
  pub bs_count : ℕ
  pub expansion : Wstring
  pub use_clipboard : Bool

abbrev pub no_plan : MacroPlan
no_plan = record {
  matched = false;
  is_part_of_macro = false;
  bs_count = 0;
  expansion = [];
  use_clipboard = false;
}

-- What the search finds: the flags `matchedExact`, `matchedViaComposition` and `isPartOfMacro`.
pub record Found : Type 0 where
  pub text : Wstring
  pub exact : Bool
  pub via_composition : Bool
  pub part : Bool

abbrev pub found : Bool → Bool → Bool → Option Wstring → Option Found
found exact via part none = none
found exact via part (some t) =
    some (record { text = t; exact = exact; via_composition = via; part = part })

unfoldable pub lower_copy : Wctype → Wstring → Wstring
lower_copy w s = map w.towlower s

abbrev pub has_trigger : PlanInputs → Bool
has_trigger i = ltb b' ' i.trigger_char

-- All but the last character.
abbrev pub without_last : Wstring → Wstring
without_last s = take (length s - 1) s

-- Priority 1: the full buffer.
unfoldable pub find_full : Wctype → PlanInputs → Option Found
find_full w i =
    found true false (has_trigger i) (i.macro_table i.raw_macro_buffer)
    <|> found false false (has_trigger i) (i.macro_table (lower_copy w i.raw_macro_buffer))

-- Priority 2: the buffer without the trigger.
unfoldable pub find_without_trigger : Wctype → PlanInputs → Option Found
find_without_trigger w i =
    let lower_key = lower_copy w i.raw_macro_buffer in
    let ends : Bool = elim (get_elem? lower_key (length lower_key - 1)) [
      | none ↦ false
      | some c ↦ c == i.trigger_char
    ] in
    if has_trigger i && ltb 1 (length lower_key) && ends
    then found true false false (i.macro_table (without_last i.raw_macro_buffer))
      <|> found false false false (i.macro_table (without_last lower_key))
    else none

-- Priorities 3 and 4: the previous composition.
unfoldable pub find_composition : Wctype → PlanInputs → Option Found
find_composition w i =
    let comp_key = lower_copy w i.previous_composition in
    let with_trigger =
      if has_trigger i
      then found false true true (i.macro_table (comp_key ++ i.trigger_char ∷ []))
      else none in
    if length i.previous_composition == 0
    then none
    else with_trigger <|> found false true false (i.macro_table comp_key)

unfoldable pub find_macro : Wctype → PlanInputs → Option Found
find_macro w i = find_full w i <|> find_without_trigger w i <|> find_composition w i

unfoldable pub sum_widths : List ℕ → ℕ
sum_widths [] = 0
sum_widths (n ∷ ns) = n + sum_widths ns

-- The characters on the screen that the composition takes.
abbrev pub composition_width : PlanInputs → ℕ
composition_width i =
    if is_unicode i.current_code_table
    then length i.previous_composition
    else sum_widths i.previous_encoded_widths

abbrev pub buffer_width : PlanInputs → ℕ
buffer_width i = let n = length i.raw_macro_buffer in if has_trigger i && ltb 0 n then n - 1 else n

unfoldable pub count_backspaces : PlanInputs → Found → ℕ
count_backspaces i f =
    if f.via_composition
    then composition_width i
    else if i.macro_cross_commit
    then buffer_width i
    else if not (length i.previous_composition == 0)
    then composition_width i
    else buffer_width i

-- A backslash that an n follows.
abbrev pub is_escape : ℕ → Wstring → Bool
is_escape c rest = c == 0x5C && (elim rest [ [] ↦ false | d ∷ _ ↦ d == b'n' ])

-- All letters in upper case, escapes aside; `skip` is set at the n of an escape.
unfoldable pub upper_all : CaseMapper → Bool → Wstring → Wstring
upper_all m skip [] = []
upper_all m skip (c ∷ rest) =
    let kept = c ∷ upper_all m (not skip) rest in
    let raised = m.upper c ∷ upper_all m false rest in
    if skip || is_escape c rest then kept else raised

-- The first letter of each word in upper case.
unfoldable pub upper_words : Wctype → CaseMapper → Bool → Bool → Wstring → Wstring
upper_words w m skip new_word [] = []
upper_words w m skip new_word (c ∷ rest) =
    let after_escape = c ∷ upper_words w m false true rest in
    let escape = c ∷ upper_words w m true true rest in
    let space = c ∷ upper_words w m false true rest in
    let letter = (if new_word then m.upper c else c) ∷ upper_words w m false false rest in
    if skip
    then after_escape
    else if is_escape c rest
    then escape
    else if w.iswspace c
    then space
    else letter

-- Whether the letters of the buffer are all in upper case, and more than one character was typed.
unfoldable pub is_all_upper : Wctype → Wstring → Bool
is_all_upper w s =
    all (λ c. not (w.iswalpha c) || w.iswupper c) s && any w.iswalpha s && ltb 1 (length s)

abbrev pub is_first_upper : Wctype → Wstring → Bool
is_first_upper w [] = false
is_first_upper w (c ∷ s) = w.iswupper c

-- The case of the expansion follows that of the keys.
unfoldable pub apply_case : Wctype → CaseMapper → PlanInputs → Found → Wstring
apply_case w m i f =
    if i.auto_caps_enabled
      && not f.exact
      && not f.via_composition
      && not (length i.raw_macro_buffer == 0)
      && not (length f.text == 0)
      && wstring_eq (m.lower f.text) f.text
    then (if is_all_upper w i.raw_macro_buffer
        then upper_all m false f.text
        else if is_first_upper w i.raw_macro_buffer
        then upper_words w m false true f.text
        else f.text)
    else f.text

unfoldable pub plan : Wctype → CaseMapper → PlanInputs → MacroPlan
plan w m i = elim (find_macro w i) [
  | none ↦ no_plan
  | some f ↦
      (let text = apply_case w m i f in
        record {
          matched = true;
          is_part_of_macro = f.part;
          bs_count = count_backspaces i f;
          expansion = text;
          use_clipboard =
              is_unicode i.current_code_table && ltb i.clipboard_threshold (length text);
        })
]
