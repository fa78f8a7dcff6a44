-- ===== src/Engine/PushChar.antt =====
-- `PushChar`, the entry of every key.
use nexus_key.Base.{
  ℕ, ◌-◌, Bool, true, false, not, ◌&&◌, ◌==◌, ltb, leb, if◌then◌else◌, [], ◌∷◌, ◌++◌, length,
}
use nexus_key.Action.{TypingAction, literal, is_literal, classify_key}
use nexus_key.State.{at}
use nexus_key.Letters.{Ctype}
use nexus_key.Config.{is_telex_mode, is_vni_mode}
use nexus_key.Engine.Core.{Engine, is_escaped, process_char}
use nexus_key.Engine.Modify.{finalize_regular_char}
use nexus_key.Engine.Circumflex.{is_user_defined}
use nexus_key.Engine.Rules.{
  RuleContext, pre_classify, post_classify, Result, veto, engine_rules, dispatch_at_phase,
}

abbrev is_digit : ℕ → Bool
is_digit c = leb b'0' c && leb c b'9'

-- The buffers take the key.
unfoldable pub record_key : ℕ → Engine → Engine
record_key key e = record e {
  raw_input = e.raw_input ++ key ∷ [];
  esc_raw_history = e.esc_raw_history ++ key ∷ [];
  qc = record (e.qc) { only_qc = false };
}

unfoldable pub context : Ctype → ℕ → TypingAction → Engine → RuleContext
context ct key action e = record {
  key_char = key;
  lower = ct.towlower key;
  is_upper = ct.iswupper key;
  action = action;
  spell_check_disabled = e.spell_check_disabled;
  allow_english_bypass = e.config.allow_english_bypass;
  escape_active = is_escaped e.escape;
  bias = e.eng_prot.bias;
}

-- A digit after a literal digit.
unfoldable pub is_vni_digit_sequence : ℕ → Engine → Bool
is_vni_digit_sequence key e =
    is_vni_mode e.config.input_method
    && is_digit key
    && not (length e.states == 0)
    && is_digit (at e.states (length e.states - 1)).base

-- The action of a key: the user's own key map comes first.
unfoldable pub action_of : Ctype → ℕ → Engine → TypingAction
action_of ct key e =
    let lower = ct.towlower key in
    let method = e.config.input_method in
    let override =
      if ltb lower 128 && is_user_defined method then e.config.custom_key_map lower else literal in
    if is_vni_digit_sequence key e
    then literal
    else if not (is_literal override)
    then override
    else classify_key lower (is_telex_mode method) (is_vni_mode method)

abbrev pub is_veto : Result → Bool
is_veto veto = true
is_veto _ = false

-- A regular character, when no rule takes the key.
unfoldable pub push_regular : Ctype → ℕ → Engine → Engine
push_regular ct key e =
    finalize_regular_char ct (process_char (ct.towlower key) (ct.iswupper key) e)

-- The steps after the first dispatch.
unfoldable pub push_classified : Ctype → ℕ → Engine → Engine
push_classified ct key e =
    let (result, f) =
      dispatch_at_phase (engine_rules ct) post_classify (context ct key (action_of ct key e) e) e in
    if is_veto result then f else push_regular ct key f

unfoldable pub push_char : Ctype → ℕ → Engine → Engine
push_char ct key e =
    let start = record_key key e in
    let (result, f) =
      dispatch_at_phase (engine_rules ct) pre_classify (context ct key literal start) start in
    if is_veto result then f else push_classified ct key f
