-- ===== src/Config.antt =====
-- The fields of `TypingConfig` that the engine reads: src/core/config/TypingConfig.h.
use nexus_key.Base.{ℕ, Bool, true, false, List, Wstring}
use nexus_key.Action.{TypingAction}

pub data InputMethod : Type 0 where
  telex vni simple_telex combined user_defined : InputMethod

pub data CodeTable : Type 0 where
  unicode tcvn3 vni_windows unicode_compound vietnamese_locale : CodeTable

pub record TypingConfig : Type 0 where
  pub input_method : InputMethod
  pub spell_check_enabled : Bool
  pub modern_ortho : Bool
  pub allow_zwjf : Bool
  pub auto_restore_enabled : Bool
  pub quick_consonant : Bool
  pub quick_start_consonant : Bool
  pub quick_end_consonant : Bool
  pub allow_english_bypass : Bool
  pub spell_exclusions : List Wstring
  pub custom_key_map : ℕ → TypingAction

-- `IsTelexMode`.
unfoldable pub is_telex_mode : InputMethod → Bool
is_telex_mode vni = false
is_telex_mode user_defined = false
is_telex_mode _ = true

-- `IsVniMode`.
unfoldable pub is_vni_mode : InputMethod → Bool
is_vni_mode vni = true
is_vni_mode combined = true
is_vni_mode _ = false
