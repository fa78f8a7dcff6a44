-- ===== src/Engine/Growth/Dispatch.antt =====
-- The dispatch of the rules.
use nexus_key.Base.{ℕ, ◌≤◌, ◌≡◌, refl, Bool, true, false, if◌then◌else◌, List, [], ◌∷◌, any, arith}
use nexus_key.Action.{literal}
use nexus_key.Letters.{Ctype}
use nexus_key.Engine.Core.{Engine, process_key}
use nexus_key.Engine.Rules.{
  GateId, Result, pass, handled, veto, pre_classify, post_classify, Rule, RuleContext,
  dispatch_rules, insert_rule, register, dispatch_at_phase, engine_rules, tone_rule, modifier_rule,
  quick_start_rule, quick_end_rule, veto_if, is_raised,
}
use nexus_key.Engine.PushChar.{context, action_of, is_veto, push_regular, push_classified}
use nexus_key.Engine.Growth.Tones.{handle_tone_fsm-Takes}
use nexus_key.Engine.Growth.Keys.{handle_modifier_action-Takes}
use nexus_key.Engine.Growth.Quicks.{
  Keeps, finalize_regular_char-Grows, handle_quick_start_consonant-Settles,
  handle_quick_start_consonant-Takes, handle_quick_end_consonant-Takes,
}
use nexus_key.Engine.Growth.{
  Grows, Takes, Grows-after, Grows-trans, Grows-refl, Grows-weaken, process_key-Grows,
}

-- A rule that takes the key adds `k` letters at most; one that does not adds none.
abbrev pub Steps : ℕ → Engine → Result × Engine → Type 0
Steps k e r = Grows (if is_veto r.0 then k else 0) e r.1

veto_if-Steps : (k : ℕ) (e : Engine) (r : Bool × Engine) → Takes k e r → Steps k e (veto_if r)
veto_if-Steps k e (true, f) g = g
veto_if-Steps k e (false, f) g = g

Steps-weaken : (j k : ℕ) (e : Engine) (r : Result × Engine) → j ≤ k → Steps j e r → Steps k e r
Steps-weaken j k e (pass, f) h g = g
Steps-weaken j k e (handled, f) h g = g
Steps-weaken j k e (veto, f) h g = Grows-weaken j k e f h g

tone_rule-Steps :
    (ct : Ctype) (ctx : RuleContext) (e : Engine) → Steps 1 e ((tone_rule ct).apply ctx e)
unfolding tone_rule
tone_rule-Steps ct ctx e =
    let still = Grows-refl e in
    let g =
      veto_if-Steps 1 e _
        (handle_tone_fsm-Takes ct ctx.action ctx.key_char ctx.lower ctx.is_upper e) in
    ground arith

modifier_rule-Steps :
    (ct : Ctype) (ctx : RuleContext) (e : Engine) → Steps 1 e ((modifier_rule ct).apply ctx e)
unfolding modifier_rule
modifier_rule-Steps ct ctx e =
    let still = Grows-refl e in
    let g =
      veto_if-Steps 1 e _ (handle_modifier_action-Takes ct ctx.action ctx.key_char ctx.lower e) in
    ground arith

quick_end_rule-Steps :
    (ct : Ctype) (ctx : RuleContext) (e : Engine) → Steps 2 e ((quick_end_rule ct).apply ctx e)
unfolding quick_end_rule
quick_end_rule-Steps ct ctx e =
    let still = Grows-refl e in
    let g = veto_if-Steps 2 e _ (handle_quick_end_consonant-Takes ct ctx.lower e) in ground arith

-- A rule, and the rules after it.
after-Steps :
    (k : ℕ) (e : Engine) (blocked : Bool) (r : Result × Engine) (rest : Engine → Result × Engine)
    → Steps k e r
    → ((f : Engine) → Steps k f (rest f))
    → Steps k e (
        if blocked then rest e else (elim r.0 as (λ _. Result × Engine) [
          | pass ↦ rest r.1
          | handled ↦ (handled, r.1)
          | veto ↦ (veto, r.1)
        ]))
after-Steps k e true r rest g h = h e
after-Steps k e false (pass, f) rest g h =
    Grows-after (if is_veto (rest f).0 then k else 0) e f _ g (h f)
after-Steps k e false (handled, f) rest g h = g
after-Steps k e false (veto, f) rest g h = g

dispatch-Steps :
    (k : ℕ) (raised : GateId → Bool) (r : Rule) (rules : List Rule) (ctx : RuleContext)
    → ((e : Engine) → Steps k e (r.apply ctx e))
    → ((e : Engine) → Steps k e (dispatch_rules raised rules ctx e))
    → (e : Engine) → Steps k e (dispatch_rules raised (r ∷ rules) ctx e)
unfolding dispatch_rules
dispatch-Steps k raised r rules ctx g h e =
    after-Steps k e (any raised r.requires) (r.apply ctx e) (dispatch_rules raised rules ctx) (g e)
      h

no_rules-Steps :
    (k : ℕ) (raised : GateId → Bool) (ctx : RuleContext) (e : Engine)
    → Steps k e (dispatch_rules raised [] ctx e)
unfolding dispatch_rules
no_rules-Steps k raised ctx e = Grows-refl e

-- Before the key is classified the quick start rule alone is asked; afterwards the tones come before the
-- modifiers, and those before the quick end rule.
pub engine_rules_lem :
    (ct : Ctype)
    → (engine_rules ct).pre ≡ quick_start_rule ct ∷ []
      × (engine_rules ct).post ≡ tone_rule ct ∷ modifier_rule ct ∷ quick_end_rule ct ∷ []
unfolding engine_rules register insert_rule tone_rule modifier_rule quick_start_rule quick_end_rule
engine_rules_lem ct = (refl, refl)

post_rules-Steps :
    (ct : Ctype) (raised : GateId → Bool) (ctx : RuleContext) (e : Engine)
    → Steps 2 e
        (dispatch_rules raised (tone_rule ct ∷ modifier_rule ct ∷ quick_end_rule ct ∷ []) ctx e)
post_rules-Steps ct raised ctx =
    dispatch-Steps 2 raised _ _ ctx
      (λ e. Steps-weaken 1 2 e _ (omega arith) (tone_rule-Steps ct ctx e))
      (dispatch-Steps 2 raised _ _ ctx
        (λ e. Steps-weaken 1 2 e _ (omega arith) (modifier_rule-Steps ct ctx e))
        (dispatch-Steps 2 raised _ _ ctx (quick_end_rule-Steps ct ctx)
          (no_rules-Steps 2 raised ctx)))

post-Steps :
    (ct : Ctype) (ctx : RuleContext) (e : Engine)
    → Steps 2 e (dispatch_at_phase (engine_rules ct) post_classify ctx e)
unfolding dispatch_at_phase
post-Steps ct ctx e = rw ((engine_rules_lem ct).1) (post_rules-Steps ct (is_raised ctx e) ctx e)

push_regular-Grows : (ct : Ctype) (key : ℕ) (e : Engine) → Grows 1 e (push_regular ct key e)
unfolding push_regular process_key
push_regular-Grows ct key e =
    Grows-trans 1 0 e _ _ (process_key-Grows ct key e) (finalize_regular_char-Grows ct _)

pub push_classified-Grows :
    (ct : Ctype) (key : ℕ) (e : Engine) → Grows 2 e (push_classified ct key e)
unfolding push_classified
push_classified-Grows ct key e =
    let ctx = context ct key (action_of ct key e) e in
    let g = post-Steps ct ctx e in
    let f : Engine = (dispatch_at_phase (engine_rules ct) post_classify ctx e).1 in
    let h = Grows-weaken 1 2 f _ (omega arith) (push_regular-Grows ct key f) in ground arith

quick_start-Settles :
    (ct : Ctype) (raised : GateId → Bool) (ctx : RuleContext) (e : Engine)
    → Keeps
        (if is_veto (dispatch_rules raised (quick_start_rule ct ∷ []) ctx e).0 then 2 else 1)
        e
        (dispatch_rules raised (quick_start_rule ct ∷ []) ctx e).1
unfolding dispatch_rules quick_start_rule
quick_start-Settles ct raised ctx e =
    let g = handle_quick_start_consonant-Settles ct ctx.key_char ctx.lower ctx.is_upper e in
    ground arith

quick_start-Steps :
    (ct : Ctype) (raised : GateId → Bool) (ctx : RuleContext) (e : Engine)
    → e.quick_start_key ≡ 0
    → Steps 2 e (dispatch_rules raised (quick_start_rule ct ∷ []) ctx e)
unfolding dispatch_rules quick_start_rule
quick_start-Steps ct raised ctx e z =
    let g = handle_quick_start_consonant-Takes ct ctx.key_char ctx.lower ctx.is_upper e z in
    ground arith

-- The dispatch before the key is classified.
abbrev pub pre_step : Ctype → ℕ → Engine → Result × Engine
pre_step ct key e = dispatch_at_phase (engine_rules ct) pre_classify (context ct key literal e) e

pub pre-Settles :
    (ct : Ctype) (key : ℕ) (e : Engine)
    → Keeps (if is_veto (pre_step ct key e).0 then 2 else 1) e (pre_step ct key e).1
unfolding dispatch_at_phase
pre-Settles ct key e =
    let ctx = context ct key literal e in
    rw ((engine_rules_lem ct).0) (quick_start-Settles ct (is_raised ctx e) ctx e)

pub pre-Steps :
    (ct : Ctype) (key : ℕ) (e : Engine) → e.quick_start_key ≡ 0 → Steps 2 e (pre_step ct key e)
unfolding dispatch_at_phase
pre-Steps ct key e z =
    let ctx = context ct key literal e in
    rw ((engine_rules_lem ct).0) (quick_start-Steps ct (is_raised ctx e) ctx e z)
