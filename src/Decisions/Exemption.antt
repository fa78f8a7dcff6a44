-- ===== src/Decisions/Exemption.antt =====
-- The keys that do not cancel a commit undo, as src/app/system/HookEngine.cpp asks for them, against the
-- action that the engine gives the key.
use nexus_key.Base.{
  ℕ, ◌≡◌, ◌∙◌, refl, sym, ap, Bool, true, false, not, ◌&&◌, ◌==◌, ltb, if◌then◌else◌, Bool-cases,
  ==_iff, inl, inr, length, arith,
}
use nexus_key.Config.{
  InputMethod, telex, vni, simple_telex, combined, user_defined, is_telex_mode, is_vni_mode,
}
use nexus_key.Action.{
  TypingAction, literal, clear_tone, tone_acute, tone_grave, tone_hook, tone_tilde, tone_dot,
  circumflex_a, circumflex_e, circumflex_o, horn_w, horn_insert_o, horn_insert_u, stroke_d,
  vni_circumflex, vni_horn, vni_breve, vni_stroke, horn_or_insert_u, horn_or_insert_u_no_start,
  undo_all_marks, insert_a_breve, insert_a_breve_upper, insert_a_circumflex,
  insert_a_circumflex_upper, insert_d_stroke, insert_d_stroke_upper, insert_e_circumflex,
  insert_e_circumflex_upper, insert_o_circumflex, insert_o_circumflex_upper, insert_o_horn,
  insert_o_horn_upper, insert_u_horn, insert_u_horn_upper, classify_key, value, is_literal,
}
use nexus_key.Letters.{Ctype}
use nexus_key.Action.{is_tone_action, is_telex_modifier_action, is_vni_modifier_action}
use nexus_key.Engine.Circumflex.{is_user_defined}
use nexus_key.Engine.Core.{Engine}
use nexus_key.Engine.PushChar.{action_of, is_vni_digit_sequence}
use nexus_key.Decisions.CommitUndo.{
  is_commit_undo_exempt_key, is_commit_undo_exempt_action, is_letter_or_digit, typed,
  exempt_key-classify_key,
}

-- `isCustomModifier`, of the character that `VkToMacroChar` gives.
unfoldable pub is_custom_modifier : InputMethod → (ℕ → TypingAction) → ℕ → Bool
is_custom_modifier user_defined key_map ch =
    if not (ch == 0) && ltb ch 128 then is_commit_undo_exempt_action (key_map ch) else false
is_custom_modifier _ key_map ch = false

-- In an empty buffer a digit continues no sequence of digits.
action_of-empty :
    (ct : Ctype) (key : ℕ) (e : Engine) → length e.states ≡ 0 → is_vni_digit_sequence key e ≡ false
unfolding is_vni_digit_sequence
action_of-empty ct key e h = ground (arith, h)

-- The step of `PushChar` from the key map and the tables to an action.
unfoldable given : InputMethod → (ℕ → TypingAction) → ℕ → TypingAction
given m key_map lower =
    let override = if ltb lower 128 && is_user_defined m then key_map lower else literal in
    if not (is_literal override)
    then override
    else classify_key lower (is_telex_mode m) (is_vni_mode m)

action_of-given :
    (ct : Ctype) (key : ℕ) (e : Engine)
    → ct.towlower key ≡ key
    → length e.states ≡ 0
    → action_of ct key e ≡ given e.config.input_method e.config.custom_key_map key
unfolding action_of given
action_of-given ct key e l h = rw (l, action_of-empty ct key e h) refl

-- A key that is in neither the map nor a table.
unclassified : (c : ℕ) → is_commit_undo_exempt_action (classify_key c false false) ≡ false
unfolding classify_key is_commit_undo_exempt_action is_tone_action is_telex_modifier_action
    is_vni_modifier_action
unclassified c = refl

literal_value : (a : TypingAction) → is_literal a ≡ (value a == 0)
unfolding value
literal_value literal = refl
literal_value clear_tone = refl
literal_value tone_acute = refl
literal_value tone_grave = refl
literal_value tone_hook = refl
literal_value tone_tilde = refl
literal_value tone_dot = refl
literal_value circumflex_a = refl
literal_value circumflex_e = refl
literal_value circumflex_o = refl
literal_value horn_w = refl
literal_value horn_insert_o = refl
literal_value horn_insert_u = refl
literal_value stroke_d = refl
literal_value vni_circumflex = refl
literal_value vni_horn = refl
literal_value vni_breve = refl
literal_value vni_stroke = refl
literal_value horn_or_insert_u = refl
literal_value horn_or_insert_u_no_start = refl
literal_value undo_all_marks = refl
literal_value insert_a_breve = refl
literal_value insert_a_breve_upper = refl
literal_value insert_a_circumflex = refl
literal_value insert_a_circumflex_upper = refl
literal_value insert_d_stroke = refl
literal_value insert_d_stroke_upper = refl
literal_value insert_e_circumflex = refl
literal_value insert_e_circumflex_upper = refl
literal_value insert_o_circumflex = refl
literal_value insert_o_circumflex_upper = refl
literal_value insert_o_horn = refl
literal_value insert_o_horn_upper = refl
literal_value insert_u_horn = refl
literal_value insert_u_horn_upper = refl

exempt_by_value : (a : TypingAction) → value a ≡ 0 → is_commit_undo_exempt_action a ≡ false
unfolding is_commit_undo_exempt_action is_tone_action is_telex_modifier_action
    is_vni_modifier_action value
exempt_by_value a h = rw h refl

custom :
    (a : TypingAction) (c : ℕ)
    → is_commit_undo_exempt_action a
      ≡ is_commit_undo_exempt_action (if not (is_literal a) then a else classify_key c false false)
custom a c = elim (Bool-cases (is_literal a)) [
  | inl l ↦
      let z = exempt_by_value a ((==_iff (value a) 0).0 (sym (literal_value a) ∙ l)) in
      rw l (z ∙ sym (unclassified c))
  | inr l ↦ rw l refl
]

and_false : (b : Bool) → (b && false) ≡ false
and_false b = ground arith

and_true : (b : Bool) → b ≡ true → (b && true) ≡ true
and_true b h = ground arith

-- A method with tables of its own.
built_in :
    (m : InputMethod) (key_map : ℕ → TypingAction) (c : ℕ)
    → is_user_defined m ≡ false
    → given m key_map c ≡ classify_key c (is_telex_mode m) (is_vni_mode m)
unfolding given
built_in m key_map c h = rw (h, and_false (ltb c 128)) refl

-- The key code of a letter or a digit types an ASCII character.
typed_ascii :
    (vk : ℕ)
    → is_letter_or_digit vk ≡ true
    → (ltb (typed vk) 128 ≡ true) × ((typed vk == 0) ≡ false)
typed_ascii vk h = (ground arith, ground arith)

exempt_key-user_defined :
    (vk : ℕ) (b : Bool) → is_commit_undo_exempt_key vk user_defined false false b ≡ b
unfolding is_commit_undo_exempt_key is_telex_mode is_vni_mode
exempt_key-user_defined vk b = ground arith

is_custom_modifier-ascii :
    (key_map : ℕ → TypingAction) (c : ℕ)
    → ltb c 128 ≡ true
    → (c == 0) ≡ false
    → is_custom_modifier user_defined key_map c ≡ is_commit_undo_exempt_action (key_map c)
unfolding is_custom_modifier
is_custom_modifier-ascii key_map c h k = rw (k, h) refl

given-user_defined :
    (key_map : ℕ → TypingAction) (c : ℕ)
    → ltb c 128 ≡ true
    → given user_defined key_map c
      ≡ (if not (is_literal (key_map c)) then key_map c else classify_key c false false)
unfolding given is_telex_mode is_vni_mode
given-user_defined key_map c h = rw h refl

by_key_map :
    (key_map : ℕ → TypingAction) (vk : ℕ)
    → is_letter_or_digit vk ≡ true
    → is_commit_undo_exempt_key vk user_defined false false
        (is_custom_modifier user_defined key_map (typed vk))
      ≡ is_commit_undo_exempt_action (given user_defined key_map (typed vk))
by_key_map key_map vk h =
    let c = typed vk in
    let r = typed_ascii vk h in
    exempt_key-user_defined vk (is_custom_modifier user_defined key_map c)
    ∙ is_custom_modifier-ascii key_map c r.0 r.1
    ∙ custom (key_map c) c
    ∙ sym (ap is_commit_undo_exempt_action (given-user_defined key_map c r.0))

exempt_key-given :
    (m : InputMethod) (key_map : ℕ → TypingAction) (vk : ℕ)
    → is_letter_or_digit vk ≡ true
    → is_commit_undo_exempt_key vk m false false (is_custom_modifier m key_map (typed vk))
      ≡ is_commit_undo_exempt_action (given m key_map (typed vk))
unfolding is_custom_modifier
exempt_key-given user_defined key_map vk h = by_key_map key_map vk h
exempt_key-given telex key_map vk h =
    rw (built_in telex key_map (typed vk) refl) (exempt_key-classify_key telex vk h)
exempt_key-given vni key_map vk h =
    rw (built_in vni key_map (typed vk) refl) (exempt_key-classify_key vni vk h)
exempt_key-given simple_telex key_map vk h =
    rw (built_in simple_telex key_map (typed vk) refl) (exempt_key-classify_key simple_telex vk h)
exempt_key-given combined key_map vk h =
    rw (built_in combined key_map (typed vk) refl) (exempt_key-classify_key combined vk h)

-- For every method and every key map of the user, a letter or digit key without Shift is exempt as a key
-- exactly if the action that the engine, its buffer being empty, gives the typed character is exempt as an
-- action, where `towlower` leaves that character.
pub exempt_key-action_of :
    (ct : Ctype) (e : Engine) (vk : ℕ)
    → is_letter_or_digit vk ≡ true
    → ct.towlower (typed vk) ≡ typed vk
    → length e.states ≡ 0
    → is_commit_undo_exempt_key vk e.config.input_method false false
        (is_custom_modifier e.config.input_method e.config.custom_key_map (typed vk))
      ≡ is_commit_undo_exempt_action (action_of ct (typed vk) e)
exempt_key-action_of ct e vk h l empty =
    exempt_key-given e.config.input_method e.config.custom_key_map vk h
    ∙ sym (ap is_commit_undo_exempt_action (action_of-given ct (typed vk) e l empty))
