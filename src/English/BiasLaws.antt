-- ===== src/English/BiasLaws.antt =====
-- How the bias moves.
use nexus_key.Base.{ℕ, ◌≤◌, ◌≡◌, ◌≢◌, ◌==◌, arith, false, List}
use nexus_key.State.{CharState}
use nexus_key.Letters.{Ctype}
use nexus_key.English.Bias.{
  LanguageBias, unknown, hard_english, soft_english, vietnamese, EnglishProtectionState,
  is_vietnamese, check_english_bias, update_tone_insistence,
}

-- How strongly a buffer is taken for English.
abbrev pub strength : LanguageBias → ℕ
strength unknown = 0
strength soft_english = 1
strength hard_english = 2
strength vietnamese = 3

-- A check of the buffer only ever strengthens the suspicion of English: a bias of `Vietnamese` or
-- `HardEnglish` stays, `SoftEnglish` stays or becomes `HardEnglish`, and no check finds `Vietnamese`
-- by itself. The record of insisted tone keys is not touched.
pub check_english_bias-monotone :
    (ct : Ctype) (states : List CharState) (p : EnglishProtectionState)
    → (strength p.bias ≤ strength (check_english_bias ct states p).bias)
      × (is_vietnamese (check_english_bias ct states p).bias ≡ is_vietnamese p.bias)
      × ((check_english_bias ct states p).last_tone_key ≡ p.last_tone_key)
      × ((check_english_bias ct states p).same_tone_key_count ≡ p.same_tone_key_count)
unfolding check_english_bias
check_english_bias-monotone ct states p = ground arith

-- The user insists on a tone key exactly by pressing it twice in a row: a first press of a key other
-- than the last one does not insist, and the next press insists exactly if it is of the same key.
pub update_tone_insistence-twice :
    (k j : ℕ) (p : EnglishProtectionState)
    → k ≢ p.last_tone_key
    → ((update_tone_insistence k p).0 ≡ false)
      × ((update_tone_insistence j (update_tone_insistence k p).1).0 ≡ (j == k))
unfolding update_tone_insistence
update_tone_insistence-twice k j p h = ground arith
