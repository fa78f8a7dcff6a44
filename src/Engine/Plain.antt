-- ===== src/Engine/Plain.antt =====
-- The keys that no table of the input method lists: they stand in the buffer as they were typed.
use nexus_key.Base.{
  ℕ, ◌-◌, ◌≡◌, ap, Bool, true, false, not, ◌&&◌, ◌||◌, if◌then◌else◌, List, [], ◌∷◌, ◌++◌, length,
  any, arith,
}
use nexus_key.Action.{literal, is_literal, classify_key, literal-classes, is_literal_lem}
use nexus_key.State.{CharState, blank, has_tone, has_modifier}
use nexus_key.Letters.{Ctype}
use nexus_key.Config.{TypingConfig, is_telex_mode, is_vni_mode}
use nexus_key.Engine.Core.{Engine, process_char}
use nexus_key.Engine.Circumflex.{is_user_defined}
use nexus_key.Engine.Quick.{
  settle_start, settle_quick, continue_quick, handle_quick_start_consonant,
}
use nexus_key.Engine.Rules.{
  Result, is_raised, pass, dispatch_at_phase, dispatch_rules, post_classify, engine_rules,
  tone_rule, modifier_rule, quick_start_rule, quick_end_rule,
}
use nexus_key.Engine.PushChar.{
  is_veto, record_key, context, action_of, push_regular, push_classified, push_char,
}
use nexus_key.Engine.Growth.Dispatch.{engine_rules_lem, pre_step}
use nexus_key.Engine.Untouched.{is_touched, finalize_regular_char-untouched}

post_rules-literal :
    (ct : Ctype) (key : ℕ) (e f : Engine)
    → f.config.quick_end_consonant ≡ false
    → dispatch_rules
        (is_raised (context ct key literal e) e)
        (tone_rule ct ∷ modifier_rule ct ∷ quick_end_rule ct ∷ [])
        (context ct key literal e)
        f
      ≡ (pass, f)
unfolding dispatch_rules tone_rule modifier_rule quick_end_rule context
post_rules-literal ct key e f q = ground (arith, literal-classes)

post-literal :
    (ct : Ctype) (key : ℕ) (e : Engine)
    → e.config.quick_end_consonant ≡ false
    → dispatch_at_phase (engine_rules ct) post_classify (context ct key literal e) e ≡ (pass, e)
unfolding dispatch_at_phase
post-literal ct key e q = rw ((engine_rules_lem ct).1) (post_rules-literal ct key e e q)

-- The quick consonants are off, and no quick start key waits.
abbrev pub IsQuickOff : Engine → Type 0
IsQuickOff e =
    (e.config.quick_consonant ≡ false)
    × (e.config.quick_start_consonant ≡ false)
    × (e.config.quick_end_consonant ≡ false)
    × (e.quick_start_key ≡ 0)

handle_quick_start_consonant-off :
    (ct : Ctype) (key lower : ℕ) (upper : Bool) (e : Engine)
    → IsQuickOff e
    → handle_quick_start_consonant ct key lower upper e ≡ (false, (settle_quick lower e).1)
unfolding handle_quick_start_consonant continue_quick settle_start settle_quick
handle_quick_start_consonant-off ct key lower upper e (a, b, c, d) = ground arith

pre_rules-off :
    (ct : Ctype) (key : ℕ) (e : Engine)
    → IsQuickOff e
    → dispatch_rules
        (is_raised (context ct key literal e) e)
        (quick_start_rule ct ∷ [])
        (context ct key literal e)
        e
      ≡ (pass, (settle_quick (ct.towlower key) e).1)
unfolding dispatch_rules quick_start_rule context
pre_rules-off ct key e off =
    let h = handle_quick_start_consonant-off ct key (ct.towlower key) (ct.iswupper key) e off in
    ground arith

pre_step-off :
    (ct : Ctype) (key : ℕ) (e : Engine)
    → IsQuickOff e
    → pre_step ct key e ≡ (pass, (settle_quick (ct.towlower key) e).1)
unfolding dispatch_at_phase
pre_step-off ct key e off = rw ((engine_rules_lem ct).0) (pre_rules-off ct key e off)

-- A key that the tables of the input method do not list.
abbrev pub is_plain_key : Ctype → TypingConfig → ℕ → Bool
is_plain_key ct config key =
    not (is_user_defined config.input_method)
    && is_literal (
        classify_key (ct.towlower key) (is_telex_mode config.input_method)
          (is_vni_mode config.input_method))

action_of-plain :
    (ct : Ctype) (key : ℕ) (e : Engine)
    → is_plain_key ct e.config key ≡ true
    → action_of ct key e ≡ literal
unfolding action_of
action_of-plain ct key e h = ground (
  arith,
  is_literal_lem (
      classify_key (ct.towlower key) (is_telex_mode e.config.input_method)
        (is_vni_mode e.config.input_method)),
)

-- The state that a plain key puts in.
abbrev pub plain_state : Ctype → ℕ → Engine → CharState
plain_state ct key e = record blank {
  base = ct.towlower key;
  is_upper = ct.iswupper key;
  raw_idx = length e.raw_input - 1;
}

any-snoc {ℓ} :
    {A : Type ℓ} (p : A → Bool) (xs : List A) (x : A) → any p (xs ++ x ∷ []) ≡ any p xs || p x
any-snoc p [] x = ground arith
any-snoc p (y ∷ xs) x = ground (arith, any-snoc p xs x)

pub plain_state-untouched :
    (ct : Ctype) (key : ℕ) (e : Engine)
    → any is_touched e.states ≡ false
    → any is_touched (e.states ++ plain_state ct key e ∷ []) ≡ false
unfolding has_modifier has_tone
plain_state-untouched ct key e h =
    ground (arith, any-snoc is_touched e.states (plain_state ct key e))

push_regular-plain :
    (ct : Ctype) (key : ℕ) (e : Engine)
    → any is_touched e.states ≡ false
    → ((push_regular ct key e).states ≡ e.states ++ plain_state ct key e ∷ [])
      × ((push_regular ct key e).config ≡ e.config)
      × ((push_regular ct key e).quick_start_key ≡ e.quick_start_key)
      × ((push_regular ct key e).raw_input ≡ e.raw_input)
unfolding push_regular process_char
push_regular-plain ct key e h =
    let s = plain_state ct key e in
    finalize_regular_char-untouched ct (record e { states = e.states ++ s ∷ [] })
      (plain_state-untouched ct key e h)

push_char-off :
    (ct : Ctype) (key : ℕ) (e : Engine)
    → IsQuickOff e
    → push_char ct key e
      ≡ push_classified ct key (settle_quick (ct.towlower key) (record_key key e)).1
unfolding push_char record_key
push_char-off ct key e off =
    ap (λ (r : Result × Engine). if is_veto r.0 then r.1 else push_classified ct key r.1)
      (pre_step-off ct key (record_key key e) off)

push_classified-literal :
    (ct : Ctype) (key : ℕ) (e : Engine)
    → e.config.quick_end_consonant ≡ false
    → action_of ct key e ≡ literal
    → push_classified ct key e ≡ push_regular ct key e
unfolding push_classified
push_classified-literal ct key e q a = rw a (
    ap (λ (r : Result × Engine). if is_veto r.0 then r.1 else push_regular ct key r.1)
      (post-literal ct key e q))

-- What a plain key does to an untouched buffer.
abbrev pub Adds : Ctype → ℕ → Engine → Engine → Type 0
Adds ct key e f =
    (f.states ≡ e.states ++ plain_state ct key (record_key key e) ∷ [])
    × (f.config ≡ e.config)
    × (f.quick_start_key ≡ e.quick_start_key)
    × (f.raw_input ≡ e.raw_input ++ key ∷ [])

push_classified-plain :
    (ct : Ctype) (key : ℕ) (e : Engine)
    → e.config.quick_end_consonant ≡ false
    → any is_touched e.states ≡ false
    → is_plain_key ct e.config key ≡ true
    → Adds ct key e (push_classified ct key (settle_quick (ct.towlower key) (record_key key e)).1)
unfolding record_key settle_quick
push_classified-plain ct key e q h plain =
    let f : Engine = (settle_quick (ct.towlower key) (record_key key e)).1 in
    rw (push_classified-literal ct key f q (action_of-plain ct key f plain))
      (push_regular-plain ct key f h)

pub push_char-plain :
    (ct : Ctype) (key : ℕ) (e : Engine)
    → IsQuickOff e
    → any is_touched e.states ≡ false
    → is_plain_key ct e.config key ≡ true
    → Adds ct key e (push_char ct key e)
push_char-plain ct key e off h plain =
    rw (push_char-off ct key e off) (push_classified-plain ct key e (off.2) h plain)
