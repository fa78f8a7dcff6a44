-- ===== src/Helpers/Stroke.antt =====
-- The target of the stroke modifier (dd and d9 for đ).
use nexus_key.Base.{
  ℕ, zero, suc, ◌-◌, Bool, false, ◌&&◌, ◌||◌, ◌==◌, ltb, leb, if◌then◌else◌, Option, none, some,
  List, Wstring, length,
}
use nexus_key.Scan.{find_last}
use nexus_key.State.{CharState, is_d, at, is_vowel_at}
use nexus_key.Letters.{Ctype}
use nexus_key.English.{has_structural_vcv_pattern}
use nexus_key.Helpers.Exclusion.{max_buf, match_exclusion_buf, build_exclusion_buf}

-- The `while` loop that walks left over a cluster of `d`s.
unfoldable pub cluster_start : List CharState → ℕ → ℕ
cluster_start states zero = zero
cluster_start states (suc i) =
    let rest = cluster_start states i in if is_d (at states i) then rest else suc i

abbrev pub is_after_vowel : List CharState → ℕ → Bool
is_after_vowel states check = ltb 0 check && is_vowel_at states (check - 1)

unfoldable pub find_stroke_d_target : List CharState → Option ℕ
find_stroke_d_target states = elim (find_last is_d 0 states) [
  | none ↦ none
  | some d ↦ if is_after_vowel states (cluster_start states d) then none else some d
]

-- The number of states at the right end that are no vowel and no `d`, among the first `i`.
unfoldable pub tail_consonants : List CharState → ℕ → ℕ
tail_consonants states zero = 0
tail_consonants states (suc i) =
    let rest = suc (tail_consonants states i) in
    if is_vowel_at states i || is_d (at states i) then 0 else rest

unfoldable pub is_stroke_d_blocked_by_coda : List CharState → ℕ → Bool
is_stroke_d_blocked_by_coda states d =
    let simple = d == 0 && (ltb 1 (length states) && is_vowel_at states 1) in
    if simple then false else leb 1 (tail_consonants states (length states))

unfoldable pub should_block_stroke_d_as_english : List CharState → ℕ → Bool
should_block_stroke_d_as_english states d =
    is_stroke_d_blocked_by_coda states d || d == 0 && has_structural_vcv_pattern states

unfoldable pub is_stroke_d_escape_allowed : ℕ → ℕ → Bool
is_stroke_d_escape_allowed count d = ltb 0 count && d == count - 1 || d == 0 && leb 2 count

unfoldable pub would_stroke_d_match_exclusion : Ctype → List CharState → List Wstring → Bool
would_stroke_d_match_exclusion ct states exclusions =
    if length exclusions == 0 || length states == 0
    then false
    else (elim (find_stroke_d_target states) [
      | none ↦ false
      | some d ↦ match_exclusion_buf (build_exclusion_buf ct max_buf states d 0x111) exclusions
    ])
