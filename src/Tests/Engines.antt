-- ===== src/Tests/Engines.antt =====
-- The theorems on the engine at the words tiến and án.
use nexus_key.Base.{◌≡◌, ◌≢◌, ◌≤◌, ◌⊎◌, refl, true, false, some, [], map, all, get_elem?, arith}
use nexus_key.State.{is_vowel_base, is_vowel, is_d, is_horn, has_modifier, has_tone, is_empty, at}
use nexus_key.Letters.{
  to_upper_vietnamese, modifier_index, apply_modifier, apply_tone, compose, vowel_base_index,
  tone_base_index, find_column, strip_tone, diphthong_vowel_index, is_triphthong,
  is_bare_smart_triphthong_tail,
}
use nexus_key.English.{is_cluster_consonant}
use nexus_key.Phonology.TonePosition.{
  collect, diphthong_rule, choose_pair, resolve_rule, pair_position, cluster_position, place,
  tone_position,
}
use nexus_key.Phonology.Lexicon.{
  decompose, is_vowel_char, closed_vowels, pending_vowels, listed, is_closed_vowel_seq,
  is_pending_vowel_seq, is_stop_final_coda, tone_allowed_for_coda, valid_onsets, is_known_onset,
  is_known_onset_prefix, valid_codas, is_known_coda,
}
use nexus_key.Engine.ToneTarget.{
  nucleus_from, nucleus, last_index, coda_from, find_tone_target, first_tone_mismatch,
  is_tone_stop_coda_mismatch,
}
use nexus_key.Scan.{find_first, find_last}
use nexus_key.State.{CharState, grave, acute, tone_value, tone_eq}
use nexus_key.Letters.{is_letter}
use nexus_key.Engine.Core.{erase_consumed_raw, compose_all, peek}
use nexus_key.Engine.RawKeys.{key_of, erase_consumed_raw-keeps}
use nexus_key.Engine.Tone.{target_of, apply_tone_at}
use nexus_key.Engine.Escape.{press, Presses, process_tone-escape}
use nexus_key.Engine.TargetLaws.{IsTarget, find_tone_target-IsTarget}
use nexus_key.Engine.Edit.{backspace, commit, seed_from_text}
use nexus_key.Engine.EditLaws.{IsDangling, backspace-IsDangling}
use nexus_key.Engine.CommitLaws.{Restores, commit_lem}
use nexus_key.Engine.SeedLaws.{letter, seed_from_text-compose_all}
use nexus_key.Tests.Fixtures.{
  locale, locale-FollowsUnicode, letter_at, tien, an, typed_ans, typed_tieens,
}

tien_target : find_tone_target locale false tien ≡ some 2
unfolding is_vowel_base is_vowel is_d is_horn has_modifier has_tone is_empty at to_upper_vietnamese
    modifier_index apply_modifier apply_tone compose vowel_base_index tone_base_index find_column
    strip_tone diphthong_vowel_index is_triphthong is_bare_smart_triphthong_tail
    is_cluster_consonant collect diphthong_rule choose_pair resolve_rule pair_position
    cluster_position place tone_position decompose is_vowel_char closed_vowels pending_vowels listed
    is_closed_vowel_seq is_pending_vowel_seq is_stop_final_coda tone_allowed_for_coda valid_onsets
    is_known_onset is_known_onset_prefix valid_codas is_known_coda nucleus_from nucleus last_index
    coda_from find_tone_target first_tone_mismatch is_tone_stop_coda_mismatch find_first find_last
tien_target = refl

find_tone_target-IsTarget_example : IsTarget tien 2
find_tone_target-IsTarget_example = find_tone_target-IsTarget locale false tien 2 tien_target

-- The second e of "tieens" is erased.
erase_consumed_raw-keeps_example :
    (s' : CharState) × (get_elem? (erase_consumed_raw 3 typed_tieens).states 3 ≡ some s')
    × (s'.base ≡ b'n')
    × (key_of (erase_consumed_raw 3 typed_tieens) s'.raw_idx ≡ key_of typed_tieens 4)
erase_consumed_raw-keeps_example =
    erase_consumed_raw-keeps typed_tieens 3 3 (letter_at b'n' 4) refl (λ e. absurd (omega arith))

grave-value : tone_value grave ≢ 0
grave-value = λ e. absurd (omega arith)

a_of_an-not_grave : tone_eq (at an 0).tone grave ≡ false
unfolding at
a_of_an-not_grave = refl

an-target : target_of locale typed_ans ≡ some 0
unfolding is_vowel_base is_vowel is_d is_horn has_modifier has_tone is_empty at to_upper_vietnamese
    modifier_index apply_modifier apply_tone compose vowel_base_index tone_base_index find_column
    strip_tone diphthong_vowel_index is_triphthong is_bare_smart_triphthong_tail
    is_cluster_consonant collect diphthong_rule choose_pair resolve_rule pair_position
    cluster_position place tone_position decompose is_vowel_char closed_vowels pending_vowels listed
    is_closed_vowel_seq is_pending_vowel_seq is_stop_final_coda tone_allowed_for_coda valid_onsets
    is_known_onset is_known_onset_prefix valid_codas is_known_coda nucleus_from nucleus last_index
    coda_from find_tone_target first_tone_mismatch is_tone_stop_coda_mismatch find_first find_last
an-target = refl

an-target_again : target_of locale (apply_tone_at grave 0 (press b'f' typed_ans)) ≡ some 0
unfolding apply_tone_at is_vowel_base is_vowel is_d is_horn has_modifier has_tone is_empty at
    to_upper_vietnamese modifier_index apply_modifier apply_tone compose vowel_base_index
    tone_base_index find_column strip_tone diphthong_vowel_index is_triphthong
    is_bare_smart_triphthong_tail is_cluster_consonant collect diphthong_rule choose_pair
    resolve_rule pair_position cluster_position place tone_position decompose is_vowel_char
    closed_vowels pending_vowels listed is_closed_vowel_seq is_pending_vowel_seq is_stop_final_coda
    tone_allowed_for_coda valid_onsets is_known_onset is_known_onset_prefix valid_codas
    is_known_coda nucleus_from nucleus last_index coda_from find_tone_target first_tone_mismatch
    is_tone_stop_coda_mismatch find_first find_last
an-target_again = refl

-- The acute tone of án gives way to a grave one, which is then escaped.
process_tone-escape_example : Presses locale grave b'f' 0 typed_ans
process_tone-escape_example =
    process_tone-escape locale grave b'f' 0 typed_ans grave-value a_of_an-not_grave an-target
      an-target_again

abbrev a_of_an : CharState
a_of_an = record (letter_at b'a' 0) { tone = acute; tone_raw_idx = some 2 }

n_of_an-before_tone : (at an 1).raw_idx ≤ 2
unfolding at
n_of_an-before_tone = omega arith

-- The keys "ans" and Backspace: the tone of the a refers to the third key of one.
backspace-IsDangling_example : IsDangling (backspace locale typed_ans) 0
backspace-IsDangling_example =
    backspace-IsDangling locale typed_ans 0 2 a_of_an refl refl (omega arith) refl refl
      n_of_an-before_tone

commit_example :
    (((commit locale typed_ans).0 ≡ compose_all locale an)
      ⊎ Restores locale typed_ans (compose_all locale an) (commit locale typed_ans).0)
    × ((commit locale typed_ans).1.states ≡ [])
    × ((commit locale typed_ans).1.raw_input ≡ [])
    × ((commit locale typed_ans).1.config ≡ typed_ans.config)
commit_example = commit_lem locale typed_ans

tien-letters : all is_letter tien ≡ true
unfolding is_vowel_base
tien-letters = refl

-- The word tiến is read into an engine that holds án.
seed_from_text-compose_all_example :
    ((seed_from_text locale (compose_all locale tien) typed_ans).0 ≡ true)
    × (map letter (seed_from_text locale (compose_all locale tien) typed_ans).1.states
        ≡ map letter tien)
    × (peek locale (seed_from_text locale (compose_all locale tien) typed_ans).1
        ≡ compose_all locale tien)
seed_from_text-compose_all_example =
    seed_from_text-compose_all locale tien typed_ans locale-FollowsUnicode tien-letters
