-- ===== src/Engine/ToneTarget.antt =====
-- `FindToneTarget` and `IsToneStopCodaMismatch`.
use nexus_key.Base.{
  ℕ, zero, suc, Bool, false, not, ◌||◌, ◌==◌, if◌then◌else◌, Option, none, some, List, [], ◌∷◌, map,
  Wstring, length, get_elem?, drop,
}
use nexus_key.State.{CharState, no_tone, tone_value, has_tone, is_vowel_at, at}
use nexus_key.Letters.{Ctype, compose}
use nexus_key.English.{is_cluster_consonant}
use nexus_key.Helpers.{has_stop_final_coda}
use nexus_key.Phonology.TonePosition.{tone_position}

-- `kVowelCap`.
abbrev pub vowel_cap : ℕ
vowel_cap = 16

-- A nucleus vowel: its index in the buffer, and its character without tone and case.
pub record Nucleus : Type 0 where
  pub index : ℕ
  pub letter : ℕ

abbrev pub canonical : CharState → CharState
canonical s = record s { tone = no_tone; is_upper = false }

-- The first loop, over `rounds` indices from `i` on, while there is room.
unfoldable pub nucleus_from : Ctype → List CharState → ℕ → ℕ → ℕ → List Nucleus
nucleus_from ct states zero i room = []
nucleus_from ct states (suc rounds) i zero = []
nucleus_from ct states (suc rounds) i (suc room) =
    let letter = compose ct (canonical (at states i)) in
    let skip = nucleus_from ct states rounds (suc i) (suc room) in
    let keep = record { index = i; letter = letter } ∷ nucleus_from ct states rounds (suc i) room in
    if not (is_vowel_at states i)
    then skip
    else if is_cluster_consonant states i
    then skip
    else if letter == 0
    then skip
    else keep

unfoldable pub nucleus : Ctype → List CharState → List Nucleus
nucleus ct states = nucleus_from ct states (length states) 0 vowel_cap

-- The index of the last nucleus vowel.
unfoldable pub last_index : ℕ → List Nucleus → ℕ
last_index i [] = i
last_index i (n ∷ ns) = last_index n.index ns

-- The second loop: the characters after the nucleus, without case.
unfoldable pub coda_from : Ctype → ℕ → List CharState → Wstring
coda_from ct zero states = []
coda_from ct (suc room) [] = []
coda_from ct (suc room) (s ∷ states) =
    let letter = compose ct (record s { is_upper = false }) in
    let skip = coda_from ct (suc room) states in
    let keep = letter ∷ coda_from ct room states in if letter == 0 then skip else keep

-- The state index of a position in the nucleus.
abbrev pub index_at : List Nucleus → Option ℕ → Option ℕ
index_at ns none = none
index_at ns (some v) = elim (get_elem? ns v) [ none ↦ none | some n ↦ some n.index ]

unfoldable pub find_tone_target : Ctype → Bool → List CharState → Option ℕ
find_tone_target ct modern states =
    let ns = nucleus ct states in
    let coda = coda_from ct vowel_cap (drop (suc (last_index 0 ns)) states) in
    if length ns == 0
    then none
    else index_at ns (tone_position (map (λ n. n.letter) ns) coda modern)

-- The tone of the first state that has one is grave, hook or tilde.
unfoldable pub first_tone_mismatch : List CharState → Bool
first_tone_mismatch [] = false
first_tone_mismatch (s ∷ states) =
    let rest = first_tone_mismatch states in
    if has_tone s
    then tone_value s.tone == 2 || tone_value s.tone == 3 || tone_value s.tone == 4
    else rest

unfoldable pub is_tone_stop_coda_mismatch : Ctype → List CharState → Bool
is_tone_stop_coda_mismatch ct states =
    if not (has_stop_final_coda ct states) then false else first_tone_mismatch states
