-- ===== src/AutoCap/Agreement.antt =====
-- The state machine of the keys against the decision on the text.
use nexus_key.Base.{
  ℕ, ◌≡◌, Bool, true, false, not, ◌&&◌, ◌||◌, ◌==◌, if◌then◌else◌, none, List, [], ◌∷◌,
}
use nexus_key.AutoCap.{
  AutoCapState, is_ready, is_after_punct, vk_return, vk_space, vk_oem_period, vk_oem_slash, vk_1,
  is_letter_vk, compute_auto_cap_state_transition, alpha_auto_cap, compute_should_auto_cap,
  is_blank_char, is_line_end, is_sentence_mark,
}

-- A key without Ctrl, Alt and Windows keys, the character that it types, and the number of letters in
-- the engine once the key has been handled, which is for the rest of the hook and the engine to say.
pub record Press : Type 0 where
  pub vk : ℕ
  pub shift : Bool
  pub char : ℕ
  pub count : ℕ

-- The key is one of the layout that the rule is written for: the period, Shift with the slash or the 1,
-- Space and Return type a period, a question or exclamation mark, a blank and the end of a line, and no
-- other key does, nor a shifted period. Space and Return leave no letter in the engine.
abbrev pub types_char : Press → Bool
types_char p =
    if p.vk == vk_space
    then p.char == b' ' && p.count == 0
    else if p.vk == vk_return
    then p.char == 0x0A && p.count == 0
    else if p.vk == vk_oem_period
    then not p.shift && p.char == b'.'
    else if p.vk == vk_oem_slash && p.shift
    then p.char == b'?'
    else if p.vk == vk_1 && p.shift
    then p.char == b'!'
    else not (is_blank_char p.char || is_line_end p.char || is_sentence_mark p.char)

-- The machine, the number of letters in the engine, and the text from the caret backwards.
pub record Writing : Type 0 where
  pub state : AutoCapState
  pub count : ℕ
  pub before : List ℕ

-- A key with no anchor there: the transition, and for a letter the use of a pending capital.
unfoldable pub press : Press → Writing → Bool × Writing
press p w =
    let s = compute_auto_cap_state_transition w.state p.vk p.shift false false false in
    let (capital, t) = alpha_auto_cap true (w.count == 0) none s in
    if is_letter_vk p.vk
    then (capital, record { state = t; count = p.count; before = p.char ∷ w.before })
    else (false, record { state = s; count = p.count; before = p.char ∷ w.before })

abbrev pub ends_in_mark : List ℕ → Bool
ends_in_mark [] = false
ends_in_mark (c ∷ before) = is_sentence_mark c

-- The machine is armed where the text asks for a capital, and then no word is begun.
pub record IsInStep (w : Writing) : Type 0 where
  pub armed : is_ready w.state ≡ compute_should_auto_cap w.before
  pub marked : is_after_punct w.state ≡ ends_in_mark w.before
  pub fresh_word : is_ready w.state && not (w.count == 0) ≡ false

-- The keys of a text, one after the other.
unfoldable pub write_all : List Press → Writing → Writing
write_all [] w = w
write_all (p ∷ ps) w = write_all ps (press p w).1
