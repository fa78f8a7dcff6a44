-- ===== src/Phonology/Syllable.antt =====
-- `Parse`, `IsValidSyllable` and `CanComplete` of Phonotactics.cpp, on rendered text. The injected
-- `IPhonologyRules` is a record of two functions.
use Prim.Native.Nat.{bit_and}
use nexus_key.Base.{
  ℕ, zero, suc, ◌+◌, ◌-◌, ltb, length, take, drop, Bool, true, false, not, ◌&&◌, ◌||◌, ◌==◌,
  if◌then◌else◌, List, [], ◌∷◌, Wstring, String, codes, wstring_eq, Option, none, some,
}
use nexus_key.State.{Tone}
use nexus_key.Phonology.Keys.{
  vowel_slot, base_index, k_invalid_base_index, key1, key2, key3, f_c, f_ch, f_k, f_m, f_n, f_ng,
  f_nh, f_p, f_t, is_front_base_vowel, get_allowed_finals,
}
use nexus_key.Phonology.Lexicon.{
  vowel_mod_value, decompose, is_vowel_char, is_closed_vowel_seq, is_pending_vowel_seq,
  tone_allowed_for_coda, is_known_onset, is_known_onset_prefix, is_known_coda,
}

-- `IPhonologyRules`.
pub record PhonologyRules : Type 0 where
  pub front : ℕ → Bool
  pub allowed_finals : ℕ → ℕ

-- `DefaultPhonologyRules`.
abbrev pub default_rules : PhonologyRules
default_rules = record { front = is_front_base_vowel; allowed_finals = get_allowed_finals }

-- The slots of a nucleus; `none` for a character that is no vowel. A slot is a `uint8_t`.
unfoldable pub slots : Wstring → Option (List ℕ)
slots [] = some []
slots (c ∷ cs) =
    let rest = slots cs in
    let v = decompose c in
    let b = base_index v.base in
    if v.base == 0
    then none
    else if b == k_invalid_base_index
    then none
    else (elim rest [ none ↦ none | some ss ↦ some (vowel_slot b (vowel_mod_value v.vmod) ∷ ss) ])

-- The final `switch`, which answers 0 for no slot and for more than three.
unfoldable pub key_of_slots : List ℕ → ℕ
key_of_slots (s0 ∷ []) = key1 s0
key_of_slots (s0 ∷ s1 ∷ []) = key2 s0 s1
key_of_slots (s0 ∷ s1 ∷ s2 ∷ []) = key3 s0 s1 s2
key_of_slots _ = 0

-- The source stops at the first bad character or the fourth vowel; either way the answer is 0.
unfoldable pub wstring_view_to_vowel_key : Wstring → ℕ
wstring_view_to_vowel_key seq = elim (slots seq) [ none ↦ 0 | some ss ↦ key_of_slots ss ]

unfoldable pub coda_to_final_bit : Wstring → ℕ
coda_to_final_bit (c ∷ []) =
    if c == b'c'
    then f_c
    else if c == b'k'
    then f_k
    else if c == b'm'
    then f_m
    else if c == b'n'
    then f_n
    else if c == b'p'
    then f_p
    else if c == b't'
    then f_t
    else 0
coda_to_final_bit (c ∷ d ∷ []) =
    if wstring_eq (c ∷ d ∷ []) (codes "ch")
    then f_ch
    else if wstring_eq (c ∷ d ∷ []) (codes "ng")
    then f_ng
    else if wstring_eq (c ∷ d ∷ []) (codes "nh")
    then f_nh
    else 0
coda_to_final_bit _ = 0

abbrev pub empty : Wstring → Bool
empty [] = true
empty (c ∷ cs) = false

unfoldable pub is_coda_valid_for_nucleus : PhonologyRules → Wstring → Wstring → Bool
is_coda_valid_for_nucleus rules vowels coda =
    let key = wstring_view_to_vowel_key vowels in
    let allowed = rules.allowed_finals key in
    let bit = coda_to_final_bit coda in
    if empty coda
    then true
    else if key == 0
    then true
    else if allowed == 0
    then true
    else if bit == 0
    then true
    else not (bit_and allowed bit == 0)

-- The base of the first vowel of a text, 0 if it has none.
unfoldable pub first_base : Wstring → ℕ
first_base [] = 0
first_base (c ∷ cs) =
    let rest = first_base cs in if is_vowel_char c then (decompose c).base else rest

unfoldable pub is_onset_vowel_agreement_valid : PhonologyRules → Wstring → Wstring → Bool
is_onset_vowel_agreement_valid rules onset vowels =
    let base = first_base vowels in
    let wants_front = is "k" || is "gh" || is "ngh" in
    if is "qu"
    then true
    else if not (is "c" || is "k" || is "g" || is "gh" || is "ng" || is "ngh")
    then true
    else if base == 0
    then true
    else if wants_front
    then rules.front base
    else not (rules.front base)
  where
    is : String → Bool
    is text = wstring_eq onset (codes text)

unfoldable pub is_valid_syllable : PhonologyRules → Wstring → Wstring → Wstring → Tone → Bool
is_valid_syllable rules onset vowels coda t =
    if empty vowels
    then false
    else if not (is_onset_vowel_agreement_valid rules onset vowels)
    then false
    else if not (empty coda) && is_closed_vowel_seq vowels
    then false
    else if empty coda && is_pending_vowel_seq vowels
    then false
    else if not (is_coda_valid_for_nucleus rules vowels coda)
    then false
    else tone_allowed_for_coda coda t

pub record ParsedSyllable : Type 0 where
  pub onset : Wstring
  pub vowels : Wstring
  pub coda : Wstring
  pub leftover : Wstring
  pub has_vowel : Bool

-- `text[i]`, which the source reads in range only.
abbrev pub char_at : Wstring → ℕ → ℕ
char_at [] i = 0
char_at (c ∷ cs) zero = c
char_at (c ∷ cs) (suc i) = char_at cs i

-- `text.substr(pos, len)`.
abbrev pub substr : Wstring → ℕ → ℕ → Wstring
substr text pos len = take len (drop pos text)

-- The first loop, over `rounds` indices from `i` on; `none` is `npos`.
unfoldable pub first_vowel : ℕ → ℕ → Wstring → Option ℕ
first_vowel zero i text = none
first_vowel (suc rounds) i text =
    let rest = first_vowel rounds (suc i) text in
    if is_vowel_char (char_at text i) then some i else rest

-- The second loop, which stops at the first character that is no vowel.
unfoldable pub last_vowel : ℕ → ℕ → ℕ → Wstring → ℕ
last_vowel zero i last text = last
last_vowel (suc rounds) i last text =
    let rest = last_vowel rounds (suc i) i text in
    if not (is_vowel_char (char_at text i)) then last else rest

-- The loop of the coda, for at most `room` rounds.
unfoldable pub coda_len : ℕ → ℕ → Wstring → ℕ
coda_len zero n rest = n
coda_len (suc room) n rest =
    let further = coda_len room (suc n) rest in
    if ltb n (length rest) && not (is_vowel_char (char_at rest n)) then further else n

-- From the index of the first vowel on.
unfoldable pub parse_from : Wstring → ℕ → ParsedSyllable
parse_from text first =
    let last = last_vowel (length text - first) first first text in
    let rest = drop (last + 1) text in
    let n = coda_len 2 0 rest in
    record {
      onset = substr text 0 first;
      vowels = substr text first (last - first + 1);
      coda = substr rest 0 n;
      leftover = drop n rest;
      has_vowel = true;
    }

unfoldable pub parse : Wstring → ParsedSyllable
parse text = elim (first_vowel (length text) 0 text) [
  | none ↦ record { onset = text; vowels = []; coda = []; leftover = []; has_vowel = false }
  | some first ↦ parse_from text first
]

unfoldable pub can_complete : Wstring → Bool
can_complete partial =
    let p = parse partial in
    if empty partial
    then true
    else if not p.has_vowel
    then is_known_onset_prefix p.onset
    else if not (is_known_onset p.onset)
    then false
    else if not (empty p.leftover)
    then false
    else if not (empty p.coda) && not (is_known_coda p.coda)
    then false
    else true
