-- ===== src/Engine/Circumflex.antt =====
-- `HandleAdjacentCircumflex`: a second a, e or o, next to the first or after other letters.
use nexus_key.Base.{
  ℕ, zero, suc, ◌-◌, Bool, true, false, not, ◌&&◌, ◌||◌, ◌==◌, leb, if◌then◌else◌, none, List,
  length,
}
use nexus_key.Action.{TypingAction, circumflex_a, circumflex_e, circumflex_o}
use nexus_key.State.{
  CharState, no_mod, circumflex, breve, mod_eq, is_vowel, has_modifier, is_horn, at, base_at,
  is_vowel_at,
}
use nexus_key.Letters.{Ctype, is_triphthong}
use nexus_key.Config.{InputMethod, user_defined}
use nexus_key.Validator.{validate_syllable_state, is_valid_prefix}
use nexus_key.English.{hard_english}
use nexus_key.Helpers.{undo_horn_u}
use nexus_key.Engine.Core.{Engine, EscapeKind, escape_circumflex, process_key}
use nexus_key.Engine.Modify.{would_modifier_key_match_exclusion}
use nexus_key.Engine.Speculate.{
  would_be_valid_syllable, should_reject_modifier, relocate, set_mod_at,
}

-- `ActionToVowel`.
unfoldable pub action_to_vowel : TypingAction → ℕ
action_to_vowel circumflex_a = b'a'
action_to_vowel circumflex_e = b'e'
action_to_vowel circumflex_o = b'o'
action_to_vowel _ = 0

abbrev pub is_user_defined : InputMethod → Bool
is_user_defined user_defined = true
is_user_defined _ = false

-- A mark goes, and its key stands as a letter.
abbrev pub escape_with : Ctype → ℕ → EscapeKind → Engine → Engine
escape_with ct key kind e = record (process_key ct key e) { escape = kind }

abbrev pub suspect_english : Engine → Engine
suspect_english e = record e { eng_prot = record (e.eng_prot) { bias = hard_english } }

-- The vowels at an index and the next, and a third one, are a triphthong.
abbrev pub completes_triphthong : List CharState → ℕ → ℕ → Bool
completes_triphthong states i v3 =
    is_vowel_at states i
    && is_vowel_at states (suc i)
    && is_triphthong (base_at states i) (base_at states (suc i)) v3

-- The last letter is the vowel of the key.
unfoldable pub adjacent_circumflex : Ctype → ℕ → ℕ → Engine → Bool × Engine
adjacent_circumflex ct key target e =
    let n = length e.states in
    let last = at e.states (n - 1) in
    let relocates = is_valid_prefix (validate_syllable_state e.states e.config.allow_zwjf) in
    let plain : Engine = set_mod_at e (n - 1) no_mod in
    let marked : Engine = set_mod_at e (n - 1) circumflex in
    let blocked =
      if relocates
      then not (would_be_valid_syllable ct e (n - 1) circumflex none true)
        && not (would_modifier_key_match_exclusion ct e key)
      else should_reject_modifier ct e (n - 1) circumflex target in
    if leb 3 n && completes_triphthong e.states (n - 3) last.base
    then (true, e)
    else if mod_eq last.mod_ circumflex
    then (
      true,
      if e.config.spell_check_enabled
          then escape_with ct key escape_circumflex plain
          else process_key ct key plain,
    )
    else if blocked
    then (false, e)
    else (true, if relocates then relocate ct marked else marked)

-- Whether free marking may put a circumflex on a vowel without a mark.
pub data Verdict : Type 0 where
  accepted rejected english : Verdict

abbrev is_lone_coda : ℕ → Bool
is_lone_coda c = c == b'c' || c == b'k' || c == b'm' || c == b'n' || c == b'p' || c == b't'

unfoldable pub free_mark_verdict : Ctype → ℕ → Engine → ℕ → Bool → ℕ → ℕ → Verdict
free_mark_verdict ct target e i crosses_vowel consonants coda =
    let spell = e.config.spell_check_enabled in
    if crosses_vowel
    then (if spell
        then (if should_reject_modifier ct e i circumflex target then rejected else accepted)
        else if leb 1 consonants
        then english
        else accepted)
    else if not spell && consonants == 1
    then (if is_lone_coda coda then accepted else english)
    else if spell && leb 1 consonants
    then (if would_be_valid_syllable ct e i circumflex none true then accepted else rejected)
    else accepted

-- The vowel of the key, at an index, after other vowels or consonants.
unfoldable pub free_mark_at : Ctype → ℕ → ℕ → Engine → ℕ → Bool → ℕ → ℕ → Bool × Engine
free_mark_at ct key target e i crosses_vowel consonants coda =
    let s = at e.states i in
    let marked : Engine = set_mod_at e i circumflex in
    let unhorned : Engine = record marked { states = undo_horn_u marked.states i } in
    if crosses_vowel && not (is_horn s) && (has_modifier s && not (mod_eq s.mod_ circumflex))
    then (false, e)
    else if mod_eq s.mod_ circumflex
    then (true, escape_with ct key escape_circumflex (set_mod_at e i no_mod))
    else if mod_eq s.mod_ breve && target == b'a'
    then (true, relocate ct marked)
    else if is_horn s && target == b'o'
    then (true, relocate ct unhorned)
    else if mod_eq s.mod_ no_mod
    then (elim (free_mark_verdict ct target e i crosses_vowel consonants coda) [
      | accepted ↦ (true, relocate ct marked)
      | rejected ↦ (false, e)
      | english ↦ (false, suspect_english e)
    ])
    else (false, e)

-- The scan from the right, below an index.
unfoldable pub free_mark_from : Ctype → ℕ → ℕ → Engine → ℕ → Bool → ℕ → ℕ → Bool × Engine
free_mark_from ct key target e zero crosses_vowel consonants coda = (false, e)
free_mark_from ct key target e (suc i) crosses_vowel consonants coda =
    let s = at e.states i in
    let over_vowel = free_mark_from ct key target e i true consonants coda in
    let over_consonant =
      free_mark_from ct key target e i crosses_vowel (suc consonants)
        (if consonants == 0 then s.base else coda) in
    if is_vowel s && not (s.base == target)
    then over_vowel
    else if not (is_vowel s)
    then over_consonant
    else free_mark_at ct key target e i crosses_vowel consonants coda

unfoldable pub handle_adjacent_circumflex : Ctype → TypingAction → ℕ → Engine → Bool × Engine
handle_adjacent_circumflex ct action key e =
    let n = length e.states in
    let target =
      if is_user_defined e.config.input_method then action_to_vowel action else ct.towlower key in
    if n == 0
    then (false, e)
    else if is_vowel_at e.states (n - 1) && base_at e.states (n - 1) == target
    then adjacent_circumflex ct key target e
    else if leb 2 n && completes_triphthong e.states (n - 2) target
    then (false, e)
    else free_mark_from ct key target e n false 0 0
