-- ===== src/Action/Classes.antt =====
-- The ranges of actions, `IsToneAction` to `IsInsertTypeAction`, and what `ClassifyKey` can answer.
use nexus_key.Base.{
  ℕ, ◌+◌, ◌≡◌, refl, ◌⊎◌, Bool, true, false, ◌||◌, ◌&&◌, ◌==◌, leb, if◌then◌else◌, arith,
}
use nexus_key.Action.Classify.{
  TypingAction, value, classify_telex, classify_vni, classify_key, literal, clear_tone, tone_dot,
  circumflex_a, horn_w, horn_insert_o, horn_insert_u, stroke_d, vni_circumflex, vni_stroke,
  horn_or_insert_u, insert_a_breve, insert_u_horn_upper,
}

-- `first <= action && action <= last`.
abbrev within : TypingAction → TypingAction → TypingAction → Bool
unfolding value
within first last a = leb (value first) (value a) && leb (value a) (value last)

unfoldable pub is_tone_action : TypingAction → Bool
unfolding value
is_tone_action a = within clear_tone tone_dot a

unfoldable pub is_telex_modifier_action : TypingAction → Bool
unfolding value
is_telex_modifier_action a = within circumflex_a stroke_d a

unfoldable pub is_vni_modifier_action : TypingAction → Bool
unfolding value
is_vni_modifier_action a = within vni_circumflex vni_stroke a

unfoldable pub is_user_defined_only_action : TypingAction → Bool
unfolding value
is_user_defined_only_action a = within horn_or_insert_u insert_u_horn_upper a

-- The equality tests of the source compare the values.
abbrev same : TypingAction → TypingAction → Bool
unfolding value
same a b = value a == value b

unfoldable pub is_insert_type_action : TypingAction → Bool
unfolding value
is_insert_type_action a =
    if same a horn_insert_o || same a horn_insert_u
    then true
    else if same a horn_or_insert_u
    then true
    else if same a horn_w
    then true
    else within insert_a_breve insert_u_horn_upper a

abbrev pub one : Bool → ℕ
one true = 1
one false = 0

-- How many of the four ranges an action lies in.
abbrev pub classes : TypingAction → ℕ
classes a =
    one (is_tone_action a)
    + one (is_telex_modifier_action a)
    + one (is_vni_modifier_action a)
    + one (is_user_defined_only_action a)

abbrev pub is_literal : TypingAction → Bool
is_literal literal = true
is_literal _ = false

-- The four ranges part the actions: `None` lies in none of them, every other action in exactly one.
pub classes-partition : (a : TypingAction) → classes a ≡ (if is_literal a then 0 else 1)
unfolding is_tone_action is_telex_modifier_action is_vni_modifier_action is_user_defined_only_action
classes-partition literal = refl
classes-partition _ = refl

-- In Combined mode the order of the two tables does not matter: no key is in both, so trying the
-- VNI table before the Telex table classifies every key alike, and neither mode alone is
-- overridden by the other.
pub classify_key-combined :
    (c : ℕ)
    → (classify_key c true true ≡ classify_vni c (classify_telex c literal))
      × ((classify_key c true false ≡ literal) ⊎ (classify_key c false true ≡ literal))
unfolding classify_key classify_telex classify_vni
classify_key-combined c = ground arith

-- A base input method never yields an action that is reserved for user-defined key maps; without
-- the VNI table no VNI modifier comes out, and without the Telex table no Telex modifier.
pub classify_key-reserved :
    (c : ℕ) (is_telex is_vni : Bool)
    → (is_user_defined_only_action (classify_key c is_telex is_vni) ≡ false)
      × (is_vni_modifier_action (classify_key c is_telex false) ≡ false)
      × (is_telex_modifier_action (classify_key c false is_vni) ≡ false)
unfolding classify_key classify_telex classify_vni is_user_defined_only_action
    is_vni_modifier_action is_telex_modifier_action
classify_key-reserved c is_telex is_vni = ground arith

-- `None` is of no class.
pub literal-classes :
    (is_tone_action literal ≡ false)
    × (is_telex_modifier_action literal ≡ false)
    × (is_vni_modifier_action literal ≡ false)
    × (is_user_defined_only_action literal ≡ false)
unfolding is_tone_action is_telex_modifier_action is_vni_modifier_action is_user_defined_only_action
literal-classes = (refl, refl, refl, refl)

pub is_literal_lem : (a : TypingAction) → is_literal a ≡ true → a ≡ literal
is_literal_lem literal h = refl
is_literal_lem a h = ground arith
