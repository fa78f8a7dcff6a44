-- ===== src/Action/Classify.antt =====
-- `TypingAction`, its value and `ClassifyKey`.
use nexus_key.Base.{ℕ, Bool, ◌==◌, if◌then◌else◌}

pub data TypingAction : Type 0 where
  literal : TypingAction
  clear_tone : TypingAction
  tone_acute : TypingAction
  tone_grave : TypingAction
  tone_hook : TypingAction
  tone_tilde : TypingAction
  tone_dot : TypingAction
  circumflex_a : TypingAction
  circumflex_e : TypingAction
  circumflex_o : TypingAction
  horn_w : TypingAction
  horn_insert_o : TypingAction
  horn_insert_u : TypingAction
  stroke_d : TypingAction
  vni_circumflex : TypingAction
  vni_horn : TypingAction
  vni_breve : TypingAction
  vni_stroke : TypingAction
  horn_or_insert_u : TypingAction
  horn_or_insert_u_no_start : TypingAction
  undo_all_marks : TypingAction
  insert_a_breve : TypingAction
  insert_a_breve_upper : TypingAction
  insert_a_circumflex : TypingAction
  insert_a_circumflex_upper : TypingAction
  insert_d_stroke : TypingAction
  insert_d_stroke_upper : TypingAction
  insert_e_circumflex : TypingAction
  insert_e_circumflex_upper : TypingAction
  insert_o_circumflex : TypingAction
  insert_o_circumflex_upper : TypingAction
  insert_o_horn : TypingAction
  insert_o_horn_upper : TypingAction
  insert_u_horn : TypingAction
  insert_u_horn_upper : TypingAction

-- The underlying value of the enumeration, by which the code compares actions.
unfoldable pub value : TypingAction → ℕ
value literal = 0
value clear_tone = 1
value tone_acute = 2
value tone_grave = 3
value tone_hook = 4
value tone_tilde = 5
value tone_dot = 6
value circumflex_a = 7
value circumflex_e = 8
value circumflex_o = 9
value horn_w = 10
value horn_insert_o = 11
value horn_insert_u = 12
value stroke_d = 13
value vni_circumflex = 14
value vni_horn = 15
value vni_breve = 16
value vni_stroke = 17
value horn_or_insert_u = 18
value horn_or_insert_u_no_start = 19
value undo_all_marks = 20
value insert_a_breve = 21
value insert_a_breve_upper = 22
value insert_a_circumflex = 23
value insert_a_circumflex_upper = 24
value insert_d_stroke = 25
value insert_d_stroke_upper = 26
value insert_e_circumflex = 27
value insert_e_circumflex_upper = 28
value insert_o_circumflex = 29
value insert_o_circumflex_upper = 30
value insert_o_horn = 31
value insert_o_horn_upper = 32
value insert_u_horn = 33
value insert_u_horn_upper = 34

-- The `switch` under `isTelex`; `rest` is what follows its `default`.
unfoldable pub classify_telex : ℕ → TypingAction → TypingAction
classify_telex lower rest =
    if lower == b'z'
    then clear_tone
    else if lower == b's'
    then tone_acute
    else if lower == b'f'
    then tone_grave
    else if lower == b'r'
    then tone_hook
    else if lower == b'x'
    then tone_tilde
    else if lower == b'j'
    then tone_dot
    else if lower == b'a'
    then circumflex_a
    else if lower == b'e'
    then circumflex_e
    else if lower == b'o'
    then circumflex_o
    else if lower == b'w'
    then horn_w
    else if lower == b'['
    then horn_insert_o
    else if lower == b']'
    then horn_insert_u
    else if lower == b'd'
    then stroke_d
    else rest

-- The `switch` under `isVni`.
unfoldable pub classify_vni : ℕ → TypingAction → TypingAction
classify_vni lower rest =
    if lower == b'0'
    then clear_tone
    else if lower == b'1'
    then tone_acute
    else if lower == b'2'
    then tone_grave
    else if lower == b'3'
    then tone_hook
    else if lower == b'4'
    then tone_tilde
    else if lower == b'5'
    then tone_dot
    else if lower == b'6'
    then vni_circumflex
    else if lower == b'7'
    then vni_horn
    else if lower == b'8'
    then vni_breve
    else if lower == b'9'
    then vni_stroke
    else rest

unfoldable pub classify_key : ℕ → Bool → Bool → TypingAction
unfolding classify_telex classify_vni
classify_key lower is_telex is_vni =
    let vni = if is_vni then classify_vni lower literal else literal in
    if is_telex then classify_telex lower vni else vni
