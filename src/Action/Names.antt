-- ===== src/Action/Names.antt =====
-- `TypingActionToString` and `StringToTypingAction`.
use text.Mathlib.Text.{◌==◌ as str_eq}
use nexus_key.Base.{String, if◌then◌else◌}
use nexus_key.Action.Classify.{
  TypingAction, literal, clear_tone, tone_acute, tone_grave, tone_hook, tone_tilde, tone_dot,
  circumflex_a, circumflex_e, circumflex_o, horn_w, horn_insert_o, horn_insert_u, stroke_d,
  vni_circumflex, vni_horn, vni_breve, vni_stroke, horn_or_insert_u, horn_or_insert_u_no_start,
  undo_all_marks, insert_a_breve, insert_a_breve_upper, insert_a_circumflex,
  insert_a_circumflex_upper, insert_d_stroke, insert_d_stroke_upper, insert_e_circumflex,
  insert_e_circumflex_upper, insert_o_circumflex, insert_o_circumflex_upper, insert_o_horn,
  insert_o_horn_upper, insert_u_horn, insert_u_horn_upper,
}

unfoldable pub typing_action_to_string : TypingAction → String
typing_action_to_string literal = "None"
typing_action_to_string clear_tone = "ClearTone"
typing_action_to_string tone_acute = "ToneAcute"
typing_action_to_string tone_grave = "ToneGrave"
typing_action_to_string tone_hook = "ToneHook"
typing_action_to_string tone_tilde = "ToneTilde"
typing_action_to_string tone_dot = "ToneDot"
typing_action_to_string circumflex_a = "CircumflexA"
typing_action_to_string circumflex_e = "CircumflexE"
typing_action_to_string circumflex_o = "CircumflexO"
typing_action_to_string horn_w = "HornW"
typing_action_to_string horn_insert_o = "HornInsertO"
typing_action_to_string horn_insert_u = "HornInsertU"
typing_action_to_string stroke_d = "StrokeD"
typing_action_to_string vni_circumflex = "VniCircumflex"
typing_action_to_string vni_horn = "VniHorn"
typing_action_to_string vni_breve = "VniBreve"
typing_action_to_string vni_stroke = "VniStroke"
typing_action_to_string horn_or_insert_u = "HornOrInsertU"
typing_action_to_string horn_or_insert_u_no_start = "HornOrInsertUNoStart"
typing_action_to_string undo_all_marks = "UndoAllMarks"
typing_action_to_string insert_a_breve = "InsertABreve"
typing_action_to_string insert_a_breve_upper = "InsertABreveUpper"
typing_action_to_string insert_a_circumflex = "InsertACircumflex"
typing_action_to_string insert_a_circumflex_upper = "InsertACircumflexUpper"
typing_action_to_string insert_d_stroke = "InsertDStroke"
typing_action_to_string insert_d_stroke_upper = "InsertDStrokeUpper"
typing_action_to_string insert_e_circumflex = "InsertECircumflex"
typing_action_to_string insert_e_circumflex_upper = "InsertECircumflexUpper"
typing_action_to_string insert_o_circumflex = "InsertOCircumflex"
typing_action_to_string insert_o_circumflex_upper = "InsertOCircumflexUpper"
typing_action_to_string insert_o_horn = "InsertOHorn"
typing_action_to_string insert_o_horn_upper = "InsertOHornUpper"
typing_action_to_string insert_u_horn = "InsertUHorn"
typing_action_to_string insert_u_horn_upper = "InsertUHornUpper"

unfoldable pub string_to_typing_action : String → TypingAction
string_to_typing_action s =
    if str_eq s "ClearTone"
    then clear_tone
    else if str_eq s "ToneAcute"
    then tone_acute
    else if str_eq s "ToneGrave"
    then tone_grave
    else if str_eq s "ToneHook"
    then tone_hook
    else if str_eq s "ToneTilde"
    then tone_tilde
    else if str_eq s "ToneDot"
    then tone_dot
    else if str_eq s "CircumflexA"
    then circumflex_a
    else if str_eq s "CircumflexE"
    then circumflex_e
    else if str_eq s "CircumflexO"
    then circumflex_o
    else if str_eq s "HornW"
    then horn_w
    else if str_eq s "HornInsertO"
    then horn_insert_o
    else if str_eq s "HornInsertU"
    then horn_insert_u
    else if str_eq s "StrokeD"
    then stroke_d
    else if str_eq s "VniCircumflex"
    then vni_circumflex
    else if str_eq s "VniHorn"
    then vni_horn
    else if str_eq s "VniBreve"
    then vni_breve
    else if str_eq s "VniStroke"
    then vni_stroke
    else if str_eq s "HornOrInsertU"
    then horn_or_insert_u
    else if str_eq s "HornOrInsertUNoStart"
    then horn_or_insert_u_no_start
    else if str_eq s "UndoAllMarks"
    then undo_all_marks
    else if str_eq s "InsertABreve"
    then insert_a_breve
    else if str_eq s "InsertABreveUpper"
    then insert_a_breve_upper
    else if str_eq s "InsertACircumflex"
    then insert_a_circumflex
    else if str_eq s "InsertACircumflexUpper"
    then insert_a_circumflex_upper
    else if str_eq s "InsertDStroke"
    then insert_d_stroke
    else if str_eq s "InsertDStrokeUpper"
    then insert_d_stroke_upper
    else if str_eq s "InsertECircumflex"
    then insert_e_circumflex
    else if str_eq s "InsertECircumflexUpper"
    then insert_e_circumflex_upper
    else if str_eq s "InsertOCircumflex"
    then insert_o_circumflex
    else if str_eq s "InsertOCircumflexUpper"
    then insert_o_circumflex_upper
    else if str_eq s "InsertOHorn"
    then insert_o_horn
    else if str_eq s "InsertOHornUpper"
    then insert_o_horn_upper
    else if str_eq s "InsertUHorn"
    then insert_u_horn
    else if str_eq s "InsertUHornUpper"
    then insert_u_horn_upper
    else literal
