-- ===== src/Helpers/Vowels.antt =====
-- Tests and changes of the vowels of a buffer.
use nexus_key.Base.{
  ℕ, zero, suc, ◌+◌, ◌-◌, Bool, true, false, not, ◌&&◌, ◌||◌, ◌==◌, ltb, leb, if◌then◌else◌, Option,
  none, some, List, length, set, any,
}
use nexus_key.Scan.{find_first}
use nexus_key.State.{
  CharState, Modifier, mod_eq, no_mod, is_vowel, is_d, has_modifier, has_tone, at, base_at,
  is_vowel_at,
}
use nexus_key.Letters.{Ctype, cell, diphthong_vowel_index, diphthong_classic, diphthong_modern}
use nexus_key.Config.{TypingConfig}
use nexus_key.English.{
  EnglishProtectionState, unprotected, hard_english, is_vietnamese, check_english_bias,
  is_cluster_consonant,
}

unfoldable pub is_uo_edge_case_prefix : Ctype → List CharState → ℕ → Bool
is_uo_edge_case_prefix ct states u =
    let c0 = ct.towlower (base_at states 0) in
    let c1 = ct.towlower (base_at states 1) in
    if u == 1 && c0 == b'h' then true else u == 2 && (c1 == b'h' && (c0 == b't' || c0 == b'k'))

-- `states[i].mod = m`.
abbrev pub set_mod : List CharState → ℕ → Modifier → List CharState
set_mod states i m = set states i (record (at states i) { mod_ = m })

unfoldable pub undo_horn_u : List CharState → ℕ → List CharState
undo_horn_u states o =
    if ltb 0 o
      && base_at states o == b'o'
      && has_modifier (at states o)
      && base_at states (o - 1) == b'u'
      && has_modifier (at states (o - 1))
    then set_mod states (o - 1) no_mod
    else states

unfoldable pub recalc_english_bias : Ctype → List CharState → EnglishProtectionState
recalc_english_bias ct states =
    if leb 2 (length states) then check_english_bias ct states unprotected else unprotected

unfoldable pub check_zwjf_initial_bias :
    TypingConfig → List CharState → EnglishProtectionState → EnglishProtectionState
check_zwjf_initial_bias config states p =
    let c = base_at states 0 in
    if config.allow_zwjf || not config.spell_check_enabled || length states == 0
    then p
    else if is_vietnamese p.bias
    then p
    else if is_vowel_at states 0
    then p
    else if c == b'w' || c == b'z' || c == b'j' || c == b'f'
    then record p { bias = hard_english }
    else p

-- The loop that walks left over the states that are no vowels.
unfoldable pub coda_start : List CharState → ℕ → ℕ
coda_start states zero = zero
coda_start states (suc i) =
    let rest = coda_start states i in if is_vowel_at states i then suc i else rest

unfoldable pub has_stop_final_coda : Ctype → List CharState → Bool
has_stop_final_coda ct states =
    let count = length states in
    let start = coda_start states count in
    let c0 = ct.towlower (base_at states start) in
    let c1 = ct.towlower (base_at states (start + 1)) in
    if ltb count 2
    then false
    else if start == 0
    then false
    else if count - start == 1
    then c0 == b'c' || c0 == b'k' || c0 == b'p' || c0 == b't'
    else count - start == 2 && c0 == b'c' && c1 == b'h'

unfoldable pub has_escapable_modifier : List CharState → Modifier → Bool → Bool
has_escapable_modifier states m is_stroke =
    any (λ s. (if is_stroke then is_d s else is_vowel s) && mod_eq s.mod_ m) states

abbrev pub is_toned_vowel : CharState → Bool
is_toned_vowel s = is_vowel s && has_tone s

unfoldable pub find_toned_vowel_index : List CharState → Option ℕ
find_toned_vowel_index states = find_first is_toned_vowel 0 states

-- The loop over `rounds` indices from `i` on.
unfoldable pub consonant_from : List CharState → ℕ → ℕ → Bool
consonant_from states zero i = false
consonant_from states (suc rounds) i =
    not (is_vowel_at states i) || consonant_from states rounds (suc i)

unfoldable pub has_consonant_between : List CharState → ℕ → ℕ → Bool
has_consonant_between states from to =
    let lo = if ltb to from then to else from in
    let hi = if ltb to from then from else to in consonant_from states (hi - suc lo) (suc lo)

-- The scan from the right for the last nucleus vowel below `i`.
unfoldable pub last_nucleus_vowel : List CharState → ℕ → Option ℕ
last_nucleus_vowel states zero = none
last_nucleus_vowel states (suc i) =
    let rest = last_nucleus_vowel states i in
    if is_vowel_at states i && not (is_cluster_consonant states i) then some i else rest

-- The diphthong rule of two vowels, with -1 for `none`, is 0.
unfoldable pub has_no_rule : Bool → Option ℕ → Option ℕ → Bool
has_no_rule modern none li = false
has_no_rule modern (some fi) none = false
has_no_rule modern (some fi) (some li) =
    cell (if modern then diphthong_modern else diphthong_classic) fi li == 0

unfoldable pub is_tone_reloc_blocked_by_p4 : List CharState → ℕ → Bool → Bool
is_tone_reloc_blocked_by_p4 states target modern =
    if has_modifier (at states target)
    then false
    else (elim (last_nucleus_vowel states (length states)) [
      | none ↦ false
      | some last ↦ elim (last_nucleus_vowel states last) [
        | none ↦ false
        | some second ↦
            target == last
            && last == second + 1
            && has_no_rule modern (diphthong_vowel_index (base_at states second))
                (diphthong_vowel_index (base_at states last))
      ]
    ])
