-- ===== src/Engine/RuleLaws.antt =====
-- The order in which a registry asks its rules, and what the dispatch of a key comes to.
use nexus_key.Base.{
  ℕ, ◌≤◌, ◌≡◌, refl, Bool, leb, if◌then◌else◌, List, [], ◌∷◌, any, inl, inr, Bool-cases, arith,
}
use nexus_key.Engine.Core.{Engine}
use nexus_key.Engine.Rules.{
  GateId, Phase, pre_classify, post_classify, Result, pass, handled, veto, Rule, RuleContext,
  Registry, dispatch_rules, insert_rule, put, no_rules, register,
}

-- No rule of the list has a lower priority number than a given one.
abbrev IsBelow : ℕ → List Rule → Type 0
IsBelow p [] = Unit
IsBelow p (r ∷ rules) = p ≤ r.priority × IsBelow p rules

-- The rules stand in ascending order of their priority numbers.
abbrev pub IsOrdered : List Rule → Type 0
IsOrdered [] = Unit
IsOrdered (r ∷ rules) = IsBelow r.priority rules × IsOrdered rules

IsBelow-weaken : (p q : ℕ) (rules : List Rule) → p ≤ q → IsBelow q rules → IsBelow p rules
IsBelow-weaken p q [] h b = tt
IsBelow-weaken p q (r ∷ rules) h (b, bs) = (omega arith, IsBelow-weaken p q rules h bs)

insert_rule-IsBelow :
    (p : ℕ) (r : Rule) (rules : List Rule)
    → p ≤ r.priority
    → IsBelow p rules
    → IsBelow p (insert_rule r rules)
unfolding insert_rule
insert_rule-IsBelow p r [] h b = (h, tt)
insert_rule-IsBelow p r (s ∷ rules) h (b, bs) = elim (Bool-cases (leb s.priority r.priority)) [
  | inl t ↦ rw t (b, insert_rule-IsBelow p r rules h bs)
  | inr f ↦ rw f (h, (b, bs))
]

insert_rule-IsOrdered :
    (r : Rule) (rules : List Rule) → IsOrdered rules → IsOrdered (insert_rule r rules)
unfolding insert_rule
insert_rule-IsOrdered r [] o = (tt, tt)
insert_rule-IsOrdered r (s ∷ rules) (b, o) = elim (Bool-cases (leb s.priority r.priority)) [
  | inl t ↦
      rw t
        (insert_rule-IsBelow s.priority r rules (ground arith) b, insert_rule-IsOrdered r rules o)
  | inr f ↦
      rw f ((ground arith, IsBelow-weaken r.priority s.priority rules (ground arith) b), (b, o))
]

-- All the rules of a list are of one phase.
abbrev IsOfPhase : Phase → List Rule → Type 0
IsOfPhase p [] = Unit
IsOfPhase p (r ∷ rules) = (r.phase ≡ p) × IsOfPhase p rules

insert_rule-IsOfPhase :
    (p : Phase) (r : Rule) (rules : List Rule)
    → r.phase ≡ p
    → IsOfPhase p rules
    → IsOfPhase p (insert_rule r rules)
unfolding insert_rule
insert_rule-IsOfPhase p r [] h o = (h, tt)
insert_rule-IsOfPhase p r (s ∷ rules) h (k, o) = elim (Bool-cases (leb s.priority r.priority)) [
  | inl t ↦ rw t (k, insert_rule-IsOfPhase p r rules h o)
  | inr f ↦ rw f (h, (k, o))
]

-- The rules of each phase are its own, in ascending order.
abbrev pub IsWellOrdered : Registry → Type 0
IsWellOrdered g =
    (IsOrdered g.pre × IsOfPhase pre_classify g.pre)
    × (IsOrdered g.post × IsOfPhase post_classify g.post)

-- The registry after a list of registrations.
abbrev pub register_all : List Rule → Registry
register_all [] = no_rules
register_all (r ∷ rules) = register r (register_all rules)

register-IsWellOrdered : (r : Rule) (g : Registry) → IsWellOrdered g → IsWellOrdered (register r g)
unfolding register
register-IsWellOrdered r g ((o, k), (p, l)) = by_phase r.phase refl
  where
    by_phase : (q : Phase) → r.phase ≡ q → IsWellOrdered (put q r g)
    by_phase pre_classify h =
        ((insert_rule-IsOrdered r g.pre o, insert_rule-IsOfPhase pre_classify r g.pre h k), (p, l))
    by_phase post_classify h = (
      (o, k),
      (insert_rule-IsOrdered r g.post p, insert_rule-IsOfPhase post_classify r g.post h l),
    )

-- In whatever order rules are registered, each phase has rules of its own only, in ascending order of
-- their priority numbers.
pub register_all-IsWellOrdered : (rules : List Rule) → IsWellOrdered (register_all rules)
register_all-IsWellOrdered [] = ((tt, tt), (tt, tt))
register_all-IsWellOrdered (r ∷ rules) =
    register-IsWellOrdered r (register_all rules) (register_all-IsWellOrdered rules)

-- The rules whose gates are all clear.
abbrev pub cleared : (GateId → Bool) → List Rule → List Rule
cleared raised [] = []
cleared raised (r ∷ rules) =
    if any raised r.requires then cleared raised rules else r ∷ cleared raised rules

-- Each rule in turn sees the engine that the ones before have left, up to the first that does not pass.
abbrev pub run_rules : List Rule → RuleContext → Engine → Result × Engine
run_rules [] ctx e = (pass, e)
run_rules (r ∷ rules) ctx e = elim ((r.apply ctx e).0) as (λ _. Result × Engine) [
  | pass ↦ run_rules rules ctx (r.apply ctx e).1
  | handled ↦ (handled, (r.apply ctx e).1)
  | veto ↦ (veto, (r.apply ctx e).1)
]

after_rule :
    (rest run : Engine → Result × Engine)
    → ((g : Engine) → rest g ≡ run g)
    → (x : Result) (g : Engine)
    → (elim x as (λ _. Result × Engine) [
      | pass ↦ rest g
      | handled ↦ (handled, g)
      | veto ↦ (veto, g)
    ])
      ≡ (elim x as (λ _. Result × Engine) [
        | pass ↦ run g
        | handled ↦ (handled, g)
        | veto ↦ (veto, g)
      ])
after_rule rest run h pass g = h g
after_rule rest run h handled g = refl
after_rule rest run h veto g = refl

-- The dispatch runs exactly the rules whose gates are clear at its start, up to the first that does not
-- pass.
pub dispatch_rules-run_rules :
    (raised : GateId → Bool) (rules : List Rule) (ctx : RuleContext) (e : Engine)
    → dispatch_rules raised rules ctx e ≡ run_rules (cleared raised rules) ctx e
unfolding dispatch_rules
dispatch_rules-run_rules raised [] ctx e = refl
dispatch_rules-run_rules raised (r ∷ rules) ctx e = elim (Bool-cases (any raised r.requires)) [
  | inl t ↦ rw t (dispatch_rules-run_rules raised rules ctx e)
  | inr f ↦ rw f (
      after_rule (dispatch_rules raised rules ctx) (run_rules (cleared raised rules) ctx)
        (dispatch_rules-run_rules raised rules ctx) (r.apply ctx e).0 (r.apply ctx e).1)
]
