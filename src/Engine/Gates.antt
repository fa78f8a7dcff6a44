-- ===== src/Engine/Gates.antt =====
-- A key of a tone while an escape is active: the gate of the tone rule, and what `PushChar` comes to.
use nexus_key.Base.{ℕ, ◌≡◌, ap, true, false, if◌then◌else◌, [], ◌∷◌, arith}
use nexus_key.Action.{
  TypingAction, is_tone_action, is_telex_modifier_action, is_vni_modifier_action,
  is_user_defined_only_action,
}
use nexus_key.Letters.{Ctype}
use nexus_key.Engine.Core.{Engine, is_escaped}
use nexus_key.Engine.Rules.{
  is_raised, pass, dispatch_at_phase, dispatch_rules, post_classify, engine_rules, tone_rule,
  modifier_rule, quick_end_rule,
}
use nexus_key.Engine.PushChar.{context, action_of, is_veto, push_regular, push_classified}
use nexus_key.Engine.Growth.Dispatch.{engine_rules_lem}

-- A tone action is of no other class.
tone_classes :
    (a : TypingAction)
    → is_tone_action a ≡ true
    → (is_telex_modifier_action a ≡ false)
      × (is_vni_modifier_action a ≡ false)
      × (is_user_defined_only_action a ≡ false)
unfolding is_tone_action is_telex_modifier_action is_vni_modifier_action is_user_defined_only_action
tone_classes a h = (ground (arith, h), ground (arith, h), ground (arith, h))

post_rules-escaped :
    (ct : Ctype) (key : ℕ) (a : TypingAction) (e : Engine)
    → is_tone_action a ≡ true
    → is_escaped e.escape ≡ true
    → e.config.quick_end_consonant ≡ false
    → dispatch_rules
        (is_raised (context ct key a e) e)
        (tone_rule ct ∷ modifier_rule ct ∷ quick_end_rule ct ∷ [])
        (context ct key a e)
        e
      ≡ (pass, e)
unfolding dispatch_rules tone_rule modifier_rule quick_end_rule context is_raised
post_rules-escaped ct key a e h s q = let c = tone_classes a h in ground (arith, c, s, q)

post-escaped :
    (ct : Ctype) (key : ℕ) (a : TypingAction) (e : Engine)
    → is_tone_action a ≡ true
    → is_escaped e.escape ≡ true
    → e.config.quick_end_consonant ≡ false
    → dispatch_at_phase (engine_rules ct) post_classify (context ct key a e) e ≡ (pass, e)
unfolding dispatch_at_phase
post-escaped ct key a e h s q = rw ((engine_rules_lem ct).1) (post_rules-escaped ct key a e h s q)

-- With the quick end consonants off, a key that is classified as a tone, typed while an escape is active,
-- is taken by no rule: after the first dispatch it is appended as a letter.
pub push_classified-escaped :
    (ct : Ctype) (key : ℕ) (e : Engine)
    → is_tone_action (action_of ct key e) ≡ true
    → is_escaped e.escape ≡ true
    → e.config.quick_end_consonant ≡ false
    → push_classified ct key e ≡ push_regular ct key e
unfolding push_classified
push_classified-escaped ct key e h s q =
    ap (λ r. if is_veto r.0 then r.1 else push_regular ct key r.1)
      (post-escaped ct key (action_of ct key e) e h s q)
