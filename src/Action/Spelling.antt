-- ===== src/Action/Spelling.antt =====
-- The names of actions in configuration files are read back as written.
use text.Mathlib.Text.{◌==◌ as str_eq}
use text.Mathlib.TextEquality.{eq_iff}
use nexus_key.Base.{String, ◌≡◌, refl, sym, ap, ◌∙◌, ◌≢◌, ◌↔◌, List, [], ◌∷◌, if◌then◌else◌, arith}
use nexus_key.Action.Classify.{
  TypingAction, literal, clear_tone, tone_acute, tone_grave, tone_hook, tone_tilde, tone_dot,
  circumflex_a, circumflex_e, circumflex_o, horn_w, horn_insert_o, horn_insert_u, stroke_d,
  vni_circumflex, vni_horn, vni_breve, vni_stroke, horn_or_insert_u, horn_or_insert_u_no_start,
  undo_all_marks, insert_a_breve, insert_a_breve_upper, insert_a_circumflex,
  insert_a_circumflex_upper, insert_d_stroke, insert_d_stroke_upper, insert_e_circumflex,
  insert_e_circumflex_upper, insert_o_circumflex, insert_o_circumflex_upper, insert_o_horn,
  insert_o_horn_upper, insert_u_horn, insert_u_horn_upper,
}
use nexus_key.Action.Names.{typing_action_to_string, string_to_typing_action}

-- The first action of a list that has the given name.
find_name : String → List TypingAction → TypingAction
find_name s [] = literal
find_name s (a ∷ acts) = if str_eq s (typing_action_to_string a) then a else find_name s acts

find_name_sound :
    (s : String) (acts : List TypingAction)
    → find_name s acts ≢ literal
    → typing_action_to_string (find_name s acts) ≡ s
unfolding find_name
find_name_sound s [] h = absurd (h refl)
find_name_sound s (a ∷ acts) h =
    ground (arith, eq_iff s (typing_action_to_string a), find_name_sound s acts)

abbrev named : List TypingAction
named =
    clear_tone ∷ tone_acute ∷ tone_grave ∷ tone_hook ∷ tone_tilde ∷ tone_dot ∷ circumflex_a
    ∷ circumflex_e ∷ circumflex_o ∷ horn_w ∷ horn_insert_o ∷ horn_insert_u ∷ stroke_d
    ∷ vni_circumflex ∷ vni_horn ∷ vni_breve ∷ vni_stroke ∷ horn_or_insert_u
    ∷ horn_or_insert_u_no_start ∷ undo_all_marks ∷ insert_a_breve ∷ insert_a_breve_upper
    ∷ insert_a_circumflex ∷ insert_a_circumflex_upper ∷ insert_d_stroke ∷ insert_d_stroke_upper
    ∷ insert_e_circumflex ∷ insert_e_circumflex_upper ∷ insert_o_circumflex
    ∷ insert_o_circumflex_upper ∷ insert_o_horn ∷ insert_o_horn_upper ∷ insert_u_horn
    ∷ insert_u_horn_upper ∷ []

string_to_typing_action-find : (s : String) → string_to_typing_action s ≡ find_name s named
unfolding string_to_typing_action find_name typing_action_to_string
string_to_typing_action-find s = refl

-- Reading the name of an action gives the action back.
pub string_to_typing_action-to_string :
    (a : TypingAction) → string_to_typing_action (typing_action_to_string a) ≡ a
unfolding string_to_typing_action typing_action_to_string
string_to_typing_action-to_string literal = refl
string_to_typing_action-to_string _ = refl

pub typing_action_to_string-of_string :
    (s : String)
    → string_to_typing_action s ≢ literal
    → typing_action_to_string (string_to_typing_action s) ≡ s
typing_action_to_string-of_string s h =
    let e = string_to_typing_action-find s in
    ap typing_action_to_string e ∙ find_name_sound s named (λ k. h (e ∙ k))

-- A text names an action other than `None` exactly if it reads as that action.
pub action_names_iff :
    (s : String) (a : TypingAction)
    → a ≢ literal
    → (string_to_typing_action s ≡ a) ↔ (s ≡ typing_action_to_string a)
action_names_iff s a h = (
  λ e.
      sym (typing_action_to_string-of_string s (λ k. h (sym e ∙ k))) ∙ ap typing_action_to_string e,
  λ e. ap string_to_typing_action e ∙ string_to_typing_action-to_string a,
)
