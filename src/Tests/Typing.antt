-- ===== src/Tests/Typing.antt =====
-- The theorems on whole words, at concrete keys.
use nexus_key.Base.{
  ℕ, ◌+◌, ◌*◌, ◌≤◌, ◌≡◌, refl, true, false, not, any, some, arith, List, [], ◌∷◌, ◌++◌, length,
}
use nexus_key.Action.{is_tone_action}
use nexus_key.State.{CharState, breve, mod_eq, at}
use nexus_key.Letters.{Ctype}
use nexus_key.Config.{TypingConfig, vni}
use nexus_key.Engine.Core.{Engine, escape_tone, peek}
use nexus_key.Engine.Edit.{commit}
use nexus_key.Engine.Speculate.{is_acceptable, set_mod_at}
use nexus_key.Engine.Modify.{would_modifier_key_match_exclusion}
use nexus_key.Engine.Circumflex.{adjacent_circumflex, completes_triphthong}
use nexus_key.Engine.Horn.{has_non_vowel_after, breve_a}
use nexus_key.Engine.HornScan.{Found, analyse}
use nexus_key.Engine.Rules.{tone_rule, quick_start_rule, quick_end_rule}
use nexus_key.Engine.Growth.Typing.{type_keys, type_keys-keeps}
use nexus_key.Engine.Parity.{accepts, adjacent_circumflex-accepts}
use nexus_key.Engine.PlainText.{is_text_key, type_keys-peek, type_keys-commit}
use nexus_key.Engine.Gates.{push_classified-escaped}
use nexus_key.Engine.PushChar.{action_of, push_classified, push_regular}
use nexus_key.Engine.RuleLaws.{IsWellOrdered, register_all, register_all-IsWellOrdered}
use nexus_key.Tests.Fixtures.{locale, letter_at, settings, fresh, typed_tieens}

abbrev keys_tieens : List ℕ
keys_tieens = b't' ∷ b'i' ∷ b'e' ∷ b'e' ∷ b'n' ∷ b's' ∷ []

type_keys-keeps_example :
    ((type_keys locale keys_tieens fresh).esc_raw_history ≡ [] ++ keys_tieens)
    × ((type_keys locale keys_tieens fresh).config ≡ settings)
    × (length (type_keys locale keys_tieens fresh).states ≤ 0 + 3 * 6)
type_keys-keeps_example = type_keys-keeps locale keys_tieens fresh

-- The letters of a word in the VNI mode.
abbrev vni_engine : Engine
vni_engine = record fresh { config = record settings { input_method = vni } }

abbrev keys_viet : List ℕ
keys_viet = b'V' ∷ b'i' ∷ b'e' ∷ b't' ∷ []

keys_viet-text : any (λ k. not (is_text_key locale vni_engine.config k)) keys_viet ≡ false
unfolding nexus_key.Action.classify_key nexus_key.Config.is_telex_mode nexus_key.Config.is_vni_mode
    nexus_key.Letters.to_upper_vietnamese
keys_viet-text = refl

type_keys-peek_example :
    peek locale (type_keys locale keys_viet vni_engine) ≡ peek locale vni_engine ++ keys_viet
type_keys-peek_example =
    type_keys-peek locale keys_viet vni_engine ((refl, refl, refl, refl), refl) keys_viet-text

type_keys-commit_example : (commit locale (type_keys locale keys_viet vni_engine)).0 ≡ keys_viet
type_keys-commit_example =
    type_keys-commit locale keys_viet vni_engine (refl, refl, refl, refl) refl refl keys_viet-text
      refl

-- The letters "vie".
abbrev typed_vie : Engine
typed_vie = record fresh {
  states = letter_at b'v' 0 ∷ letter_at b'i' 1 ∷ letter_at b'e' 2 ∷ [];
  raw_input = b'v' ∷ b'i' ∷ b'e' ∷ [];
}

no_exclusion : would_modifier_key_match_exclusion locale typed_vie b'e' ≡ false
unfolding would_modifier_key_match_exclusion nexus_key.Helpers.would_any_modifier_match_exclusion
no_exclusion = refl

vie-circumflexed : (adjacent_circumflex locale b'e' b'e' typed_vie).0 ≡ true
unfolding adjacent_circumflex nexus_key.State.is_vowel at
    nexus_key.Validator.validate_syllable_state nexus_key.Validator.validate_impl
    nexus_key.Validator.parse_initial_consonant nexus_key.State.is_d
    nexus_key.Validator.is_initial_letter nexus_key.Validator.validate_from
    nexus_key.Validator.clashes nexus_key.Validator.validate_ambiguous
    nexus_key.Validator.validate_decomposition nexus_key.Validator.validate_rest
    nexus_key.Validator.nucleus_key nexus_key.Validator.span_vowels
    nexus_key.Phonology.Keys.base_index nexus_key.Validator.validate_nucleus
    nexus_key.Phonology.VowelTable.find_vowel nexus_key.Phonology.Syllable.key_of_slots
    nexus_key.Validator.mod_ordinal nexus_key.Validator.is_vowel_prefix
    nexus_key.Validator.extends_any nexus_key.Validator.extends
    nexus_key.Validator.try_modified_vowels nexus_key.Validator.try_slots
    nexus_key.Validator.check_tone_mod_invariant nexus_key.Validator.scan_marks
    nexus_key.State.has_tone nexus_key.Engine.Speculate.would_be_valid_syllable is_acceptable
    nexus_key.Engine.Speculate.speculate_relocated nexus_key.Engine.Relocate.relocate_tone_to_target
    nexus_key.Helpers.find_toned_vowel_index nexus_key.Scan.find_first
    nexus_key.Engine.Speculate.clear_circumflex
vie-circumflexed = refl

vie-no_triphthong : completes_triphthong typed_vie.states 0 b'e' ≡ false
unfolding nexus_key.State.is_vowel at
vie-no_triphthong = refl

adjacent_circumflex-accepts_example :
    accepts locale (adjacent_circumflex locale b'e' b'e' typed_vie).1 ≡ true
unfolding at
adjacent_circumflex-accepts_example =
    adjacent_circumflex-accepts locale b'e' b'e' typed_vie refl (omega arith) (omega arith)
      no_exclusion no_exclusion refl vie-no_triphthong vie-circumflexed

-- The letters "an".
abbrev plain_an : Engine
plain_an = record fresh {
  states = letter_at b'a' 0 ∷ letter_at b'n' 1 ∷ [];
  raw_input = b'a' ∷ b'n' ∷ [];
}

an-found : (analyse plain_an.states).a ≡ some 0
unfolding analyse nexus_key.Scan.find_last_at nexus_key.State.is_vowel at
    nexus_key.Engine.HornScan.is_qu_cluster_u
an-found = refl

an-closed : has_non_vowel_after plain_an.states 0 ≡ true
unfolding has_non_vowel_after nexus_key.Scan.find_last_at nexus_key.State.is_vowel at
an-closed = refl

an-breved :
    breve_a locale (analyse plain_an.states) plain_an ≡ some (true, set_mod_at plain_an 0 breve)
unfolding breve_a analyse nexus_key.Scan.find_last_at nexus_key.State.is_vowel at
    nexus_key.Engine.HornScan.is_qu_cluster_u nexus_key.Engine.Horn.is_refused has_non_vowel_after
    nexus_key.Engine.Speculate.would_be_valid_syllable is_acceptable
    nexus_key.Validator.validate_syllable_state nexus_key.Validator.validate_impl
    nexus_key.Engine.Speculate.speculate_in_place nexus_key.Engine.Speculate.clear_circumflex
    nexus_key.Validator.parse_initial_consonant nexus_key.State.is_d
    nexus_key.Validator.validate_from nexus_key.Validator.clashes
    nexus_key.Validator.validate_ambiguous nexus_key.Validator.validate_decomposition
    nexus_key.Validator.validate_rest nexus_key.Validator.nucleus_key
    nexus_key.Validator.span_vowels nexus_key.Phonology.Keys.base_index
    nexus_key.Validator.validate_nucleus nexus_key.Phonology.VowelTable.find_vowel
    nexus_key.Phonology.Syllable.key_of_slots nexus_key.Validator.mod_ordinal
    nexus_key.Validator.validate_final nexus_key.Validator.parse_final_consonant
    nexus_key.Phonology.Keys.get_allowed_finals nexus_key.Validator.final_consonant_bit
    nexus_key.Validator.is_stop_final nexus_key.Validator.check_tone_mod_invariant
    nexus_key.Validator.scan_marks nexus_key.State.has_tone
an-breved = refl

register_all-IsWellOrdered_example :
    IsWellOrdered
      (register_all (tone_rule locale ∷ quick_end_rule locale ∷ quick_start_rule locale ∷ []))
register_all-IsWellOrdered_example =
    register_all-IsWellOrdered
      (tone_rule locale ∷ quick_end_rule locale ∷ quick_start_rule locale ∷ [])

-- The engine after "tieens", with an escape active.
abbrev escaped_tieens : Engine
escaped_tieens = record typed_tieens { escape = escape_tone }

s-tone : is_tone_action (action_of locale b's' escaped_tieens) ≡ true
unfolding action_of nexus_key.Engine.PushChar.is_vni_digit_sequence nexus_key.Action.classify_key
    nexus_key.Action.classify_telex nexus_key.Action.value nexus_key.Config.is_telex_mode
    nexus_key.Config.is_vni_mode is_tone_action
s-tone = refl

push_classified-escaped_example :
    push_classified locale b's' escaped_tieens ≡ push_regular locale b's' escaped_tieens
push_classified-escaped_example =
    push_classified-escaped locale b's' escaped_tieens s-tone refl refl
