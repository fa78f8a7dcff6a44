-- ===== src/Tests/Macros.antt =====
-- The theorems on macros, at a macro for "btw" typed with a full stop.
use nexus_key.Base.{
  ℕ, ◌||◌, ◌==◌, map, ◌≡◌, refl, Bool, true, false, ◌&&◌, leb, if◌then◌else◌, none, some, List, [],
  ◌∷◌, ◌++◌, Wstring, wstring_eq, codes,
}
use nexus_key.Macro.{Wctype, CaseMapper, CodeTable, unicode, PlanInputs, plan, has_trigger}
use nexus_key.Macro.Segments.{
  build_segments, expand_escapes_for_clipboard, joined, build_segments-joined,
  expand_escapes_for_clipboard-joined,
}
use nexus_key.Macro.Prefix.{is_space_macro_prefix, is_space_macro_prefix-shorter}
use nexus_key.Tests.Fixtures.{lower_of, upper_of}

abbrev is_upper_ascii : ℕ → Bool
is_upper_ascii c = leb b'A' c && leb c b'Z'

abbrev ascii : Wctype
ascii = record {
  towlower = lower_of;
  iswupper = is_upper_ascii;
  iswalpha = λ c. is_upper_ascii c || leb b'a' c && leb c b'z';
  iswspace = λ c. c == b' ';
}

abbrev mapper : CaseMapper
mapper = record { upper = upper_of; lower = map lower_of }

-- by the way, on two lines
abbrev by_the_way : Wstring
by_the_way = codes "by the\\nway"

abbrev typed_btw : PlanInputs
typed_btw = record {
  raw_macro_buffer = codes "btw";
  previous_composition = [];
  previous_encoded_widths = [];
  macro_table = λ k. if wstring_eq k (codes "btw") then some by_the_way else none;
  macro_cross_commit = false;
  current_code_table = unicode;
  auto_caps_enabled = true;
  trigger_char = b' ';
  clipboard_threshold = 200;
}

abbrev as_it_is : CodeTable → ℕ → Wstring
as_it_is table c = c ∷ []

build_segments-joined_example :
    joined (0x5C ∷ b'n' ∷ []) (build_segments as_it_is by_the_way unicode) ≡ by_the_way
build_segments-joined_example = build_segments-joined as_it_is by_the_way

expand_escapes_for_clipboard-joined_example :
    expand_escapes_for_clipboard by_the_way
    ≡ joined (0x0D ∷ 0x0A ∷ []) (build_segments as_it_is by_the_way unicode)
expand_escapes_for_clipboard-joined_example =
    expand_escapes_for_clipboard-joined as_it_is by_the_way

abbrev by_the_way_key : List Wstring
by_the_way_key = codes "by the way" ∷ []

is_space_macro_prefix_typed :
    is_space_macro_prefix ascii (codes "By t" ++ b'h' ∷ []) by_the_way_key ≡ true
unfolding is_space_macro_prefix nexus_key.Macro.Prefix.is_prefix_of nexus_key.Macro.lower_copy
is_space_macro_prefix_typed = refl
