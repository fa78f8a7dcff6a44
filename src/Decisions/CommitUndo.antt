-- ===== src/Decisions/CommitUndo.antt =====
-- The keys that do not cancel a commit undo: src/core/CommitUndoExemption.h.
use nexus_key.Base.{
  ℕ, zero, suc, ◌+◌, ◌<◌, ◌≡◌, refl, Bool, true, false, not, ◌&&◌, ◌||◌, ◌==◌, leb, if◌then◌else◌,
  arith, &&-left, &&-right, Bool-cases, inl, inr, ==_iff, sym,
}
use nexus_key.Config.{
  InputMethod, telex, vni, simple_telex, combined, user_defined, is_telex_mode, is_vni_mode,
}
use nexus_key.Action.{
  TypingAction, classify_key, value, is_tone_action, is_telex_modifier_action,
  is_vni_modifier_action, horn_or_insert_u, horn_or_insert_u_no_start, undo_all_marks,
  classify_telex, classify_vni,
}

unfoldable pub is_commit_undo_exempt_action : TypingAction → Bool
unfolding value
is_commit_undo_exempt_action a =
    if is_tone_action a
    then true
    else if is_telex_modifier_action a
    then true
    else if is_vni_modifier_action a
    then true
    else value a == value horn_or_insert_u
      || value a == value horn_or_insert_u_no_start
      || value a == value undo_all_marks

-- `vkCode == 'S' || ...`.
abbrev pub is_modifier_letter : ℕ → Bool
is_modifier_letter vk =
    vk == b'S'
    || vk == b'F'
    || vk == b'R'
    || vk == b'X'
    || vk == b'J'
    || vk == b'Z'
    || vk == b'A'
    || vk == b'E'
    || vk == b'O'
    || vk == b'W'
    || vk == b'D'

abbrev is_user_defined : InputMethod → Bool
is_user_defined user_defined = true
is_user_defined _ = false

-- `Telex`, `SimpleTelex` and `Combined`, and `VNI` and `Combined`, are the modes of the engine.
unfoldable pub is_commit_undo_exempt_key : ℕ → InputMethod → Bool → Bool → Bool → Bool
unfolding is_telex_mode is_vni_mode
is_commit_undo_exempt_key vk method shift_held esc_is_cancel_trigger is_custom_modifier =
    is_telex_mode method && is_modifier_letter vk
    || is_vni_mode method && leb b'0' vk && leb vk b'9' && not shift_held
    || is_user_defined method && is_custom_modifier
    || vk == 0x1B && esc_is_cancel_trigger

-- The key code of a letter or a digit, and the small letter or digit that it types without Shift.
abbrev pub is_letter_or_digit : ℕ → Bool
is_letter_or_digit vk = leb b'A' vk && leb vk b'Z' || leb b'0' vk && leb vk b'9'

abbrev pub typed : ℕ → ℕ
typed vk = if leb b'A' vk then vk + 0x20 else vk

abbrev coincide : Bool → Bool → Bool
coincide true b = b
coincide false b = not b

-- A test that holds below a bound.
abbrev below : ℕ → (ℕ → Bool) → Bool
below zero p = true
below (suc n) p = p n && below n p

below_sound : (n c : ℕ) (p : ℕ → Bool) → below n p ≡ true → c < n → p c ≡ true
below_sound zero c p h k = absurd (omega arith)
below_sound (suc n) c p h k = elim (Bool-cases (c == n)) [
  | inl e ↦ rw ((==_iff c n).0 e) (&&-left (p n) _ h)
  | inr e ↦ below_sound n c p (&&-right (p n) _ h) (ground arith)
]

coincide_sound : (a b : Bool) → coincide a b ≡ true → a ≡ b
coincide_sound true b h = sym h
coincide_sound false b h = ground arith

or-right : (a b : Bool) → a ≡ true → (not a || b) ≡ true → b ≡ true
or-right a b h k = ground arith

abbrev agrees : InputMethod → ℕ → Bool
agrees m vk =
    not (is_letter_or_digit vk)
    || coincide (is_commit_undo_exempt_key vk m false false false)
        (is_commit_undo_exempt_action (classify_key (typed vk) (is_telex_mode m) (is_vni_mode m)))

all_agree : (m : InputMethod) → below 0x5B (agrees m) ≡ true
unfolding is_commit_undo_exempt_key is_commit_undo_exempt_action classify_key classify_telex
    classify_vni is_telex_mode is_vni_mode value is_tone_action is_telex_modifier_action
    is_vni_modifier_action
all_agree telex = refl
all_agree vni = refl
all_agree simple_telex = refl
all_agree combined = refl
all_agree user_defined = refl

-- Where no key map of the user counts, a letter or digit key without Shift is exempt as a key exactly if
-- the action that the tables of the method give the typed character is exempt as an action.
pub exempt_key-classify_key :
    (m : InputMethod) (vk : ℕ)
    → is_letter_or_digit vk ≡ true
    → is_commit_undo_exempt_key vk m false false false
      ≡ is_commit_undo_exempt_action (classify_key (typed vk) (is_telex_mode m) (is_vni_mode m))
exempt_key-classify_key m vk h =
    let k = below_sound 0x5B vk (agrees m) (all_agree m) (ground arith) in
    coincide_sound _ _ (or-right _ _ h k)
