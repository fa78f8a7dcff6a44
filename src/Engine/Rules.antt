-- ===== src/Engine/Rules.antt =====
-- The rule registry: src/core/engine/rule. A rule states the gates that must not be raised, and what
-- it does with a key. A mask of gates is the list of its gates.
use nexus_key.Base.{
  ℕ, ◌-◌, Bool, not, ◌&&◌, ◌||◌, ◌==◌, leb, if◌then◌else◌, List, [], ◌∷◌, length, any,
}
use nexus_key.Action.{
  TypingAction, is_tone_action, is_telex_modifier_action, is_vni_modifier_action,
  is_user_defined_only_action,
}
use nexus_key.State.{is_vowel, at}
use nexus_key.Letters.{Ctype}
use nexus_key.English.{LanguageBias, is_hard}
use nexus_key.Engine.Core.{Engine}
use nexus_key.Engine.Tone.{handle_tone_fsm}
use nexus_key.Engine.Modifier.{handle_modifier_action}
use nexus_key.Engine.Quick.{handle_quick_start_consonant, handle_quick_end_consonant}

pub data GateId : Type 0 where
  english_bias spell_check tone_escape : GateId

pub data Phase : Type 0 where
  pre_classify post_classify : Phase

pub data Result : Type 0 where
  pass handled veto : Result

-- `EngineRuleContext`; its references to the engine's fields are the engine.
pub record RuleContext : Type 0 where
  pub key_char : ℕ
  pub lower : ℕ
  pub is_upper : Bool
  pub action : TypingAction
  pub spell_check_disabled : Bool
  pub allow_english_bypass : Bool
  pub escape_active : Bool
  pub bias : LanguageBias

pub record Rule : Type 0 where
  pub phase : Phase
  pub priority : ℕ
  pub requires : List GateId
  pub apply : RuleContext → Engine → Result × Engine

-- Whether a gate is raised (`EvaluateGates`).
unfoldable pub is_raised : RuleContext → Engine → GateId → Bool
is_raised ctx e english_bias = is_hard ctx.bias && not ctx.allow_english_bypass
is_raised ctx e spell_check =
    ctx.spell_check_disabled && e.config.spell_check_enabled && not ctx.allow_english_bypass
is_raised ctx e tone_escape = ctx.escape_active

-- The loop of `DispatchAtPhase` over the rules of a phase; the gates are those at its start.
unfoldable pub dispatch_rules : (GateId → Bool) → List Rule → RuleContext → Engine → Result × Engine
dispatch_rules raised [] ctx e = (pass, e)
dispatch_rules raised (r ∷ rules) ctx e =
    let rest = dispatch_rules raised rules ctx in
    let (result, f) = r.apply ctx e in
    if any raised r.requires
    then rest e
    else (elim result [ pass ↦ rest f | handled ↦ (handled, f) | veto ↦ (veto, f) ])

-- `Register` appends the rule and sorts the rules of its phase by priority, and the sort is stable:
-- the rule goes before the first one of a higher priority number.
unfoldable pub insert_rule : Rule → List Rule → List Rule
insert_rule r [] = r ∷ []
insert_rule r (s ∷ rules) =
    let later = s ∷ insert_rule r rules in
    if leb s.priority r.priority then later else r ∷ s ∷ rules

pub record Registry : Type 0 where
  pub pre : List Rule
  pub post : List Rule

abbrev pub no_rules : Registry
no_rules = record { pre = []; post = [] }

abbrev pub put : Phase → Rule → Registry → Registry
put pre_classify r g = record g { pre = insert_rule r g.pre }
put post_classify r g = record g { post = insert_rule r g.post }

unfoldable pub register : Rule → Registry → Registry
register r g = put r.phase r g

abbrev pub rules_at : Registry → Phase → List Rule
rules_at g pre_classify = g.pre
rules_at g post_classify = g.post

unfoldable pub dispatch_at_phase : Registry → Phase → RuleContext → Engine → Result × Engine
dispatch_at_phase g p ctx e = dispatch_rules (is_raised ctx e) (rules_at g p) ctx e

abbrev pub veto_if : Bool × Engine → Result × Engine
veto_if (consumed, e) = (if consumed then veto else pass, e)

-- `ToneRule`.
unfoldable pub tone_rule : Ctype → Rule
tone_rule ct = record {
  phase = post_classify;
  priority = 10;
  requires = tone_escape ∷ [];
  apply = λ ctx e.
      if not (is_tone_action ctx.action)
      then (pass, e)
      else veto_if (handle_tone_fsm ct ctx.action ctx.key_char ctx.lower ctx.is_upper e);
}

-- `ModifierRule`.
unfoldable pub modifier_rule : Ctype → Rule
modifier_rule ct = record {
  phase = post_classify;
  priority = 20;
  requires = [];
  apply = λ ctx e.
      if not (is_telex_modifier_action ctx.action)
        && not (is_vni_modifier_action ctx.action)
        && not (is_user_defined_only_action ctx.action)
      then (pass, e)
      else veto_if (handle_modifier_action ct ctx.action ctx.key_char ctx.lower e);
}

-- `QuickStartConsonantRule`.
unfoldable pub quick_start_rule : Ctype → Rule
quick_start_rule ct = record {
  phase = pre_classify;
  priority = 5;
  requires = [];
  apply = λ ctx e. veto_if (handle_quick_start_consonant ct ctx.key_char ctx.lower ctx.is_upper e);
}

-- `QuickEndConsonantRule`.
unfoldable pub quick_end_rule : Ctype → Rule
quick_end_rule ct = record {
  phase = post_classify;
  priority = 30;
  requires = [];
  apply = λ ctx e.
      if not e.config.quick_end_consonant
      then (pass, e)
      else if length e.states == 0 || not (is_vowel (at e.states (length e.states - 1)))
      then (pass, e)
      else if not (ctx.lower == b'g') && not (ctx.lower == b'h') && not (ctx.lower == b'k')
      then (pass, e)
      else veto_if (handle_quick_end_consonant ct ctx.lower e);
}

-- The registry that the constructor of the engine fills.
unfoldable pub engine_rules : Ctype → Registry
engine_rules ct = register (quick_end_rule ct) (
    register (quick_start_rule ct) (register (modifier_rule ct) (register (tone_rule ct) no_rules)))
