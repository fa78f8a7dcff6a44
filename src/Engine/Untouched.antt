-- ===== src/Engine/Untouched.antt =====
-- Letters that no key has changed: the placement of tones and `FinalizeRegularChar` leave them alone.
use nexus_key.Base.{
  ℕ, zero, suc, ◌+◌, ◌-◌, ◌≡◌, refl, Bool, false, ◌&&◌, ◌||◌, none, List, [], ◌∷◌, length, any,
  arith,
}
use nexus_key.Scan.{find_first}
use nexus_key.State.{CharState, is_vowel, is_horn, has_tone, has_modifier, at}
use nexus_key.Letters.{Ctype}
use nexus_key.Helpers.{find_toned_vowel_index}
use nexus_key.Engine.Core.{Engine, update_spell_state}
use nexus_key.Engine.Relocate.{
  relocate_tone_to_target, complete_u, complete_o, auto_uo_at, auto_uo_from, apply_auto_uo,
}
use nexus_key.Engine.Modify.{is_marked, reverts_w, finalize_regular_char}

-- A state that some key has changed, or that a rule has put in.
abbrev pub is_touched : CharState → Bool
is_touched s = is_marked s || s.synthetic

pub at-untouched :
    (ss : List CharState) (i : ℕ) → any is_touched ss ≡ false → is_touched (at ss i) ≡ false
unfolding at has_modifier has_tone
at-untouched [] i h = refl
at-untouched (s ∷ ss) zero h = ground arith
at-untouched (s ∷ ss) (suc i) h = at-untouched ss i (ground arith)

pub find_first-untouched :
    (i : ℕ) (ss : List CharState)
    → any is_touched ss ≡ false
    → find_first (λ s. is_vowel s && has_tone s) i ss ≡ none
unfolding find_first
find_first-untouched i [] h = refl
find_first-untouched i (s ∷ ss) h = ground (arith, find_first-untouched (suc i) ss)

pub relocate-untouched :
    (ct : Ctype) (modern : Bool) (ss : List CharState)
    → any is_touched ss ≡ false
    → relocate_tone_to_target ct modern ss ≡ ss
unfolding relocate_tone_to_target find_toned_vowel_index
relocate-untouched ct modern ss h = let g = find_first-untouched 0 ss h in ground arith

pub complete_u-untouched :
    (ss : List CharState) (i : ℕ) → any is_touched ss ≡ false → complete_u ss i ≡ ss
unfolding complete_u is_horn has_modifier
complete_u-untouched ss i h = let b = at-untouched ss (i + 1) h in ground arith

pub complete_o-untouched :
    (ct : Ctype) (modern : Bool) (ss : List CharState) (i : ℕ)
    → any is_touched ss ≡ false
    → complete_o ct modern ss i ≡ ss
unfolding complete_o is_horn has_modifier
complete_o-untouched ct modern ss i h = let b = at-untouched ss i h in ground arith

pub auto_uo_at-untouched :
    (ct : Ctype) (modern : Bool) (ss : List CharState) (i : ℕ)
    → any is_touched ss ≡ false
    → auto_uo_at ct modern ss i ≡ ss
unfolding auto_uo_at
auto_uo_at-untouched ct modern ss i h =
    let u = complete_u-untouched ss i h in
    let o = complete_o-untouched ct modern ss i h in ground arith

pub auto_uo_from-untouched :
    (ct : Ctype) (modern : Bool) (rounds i : ℕ) (ss : List CharState)
    → any is_touched ss ≡ false
    → auto_uo_from ct modern rounds i ss ≡ ss
unfolding auto_uo_from
auto_uo_from-untouched ct modern zero i ss h = refl
auto_uo_from-untouched ct modern (suc rounds) i ss h =
    rw (auto_uo_at-untouched ct modern ss i h)
      (auto_uo_from-untouched ct modern rounds (suc i) ss h)

pub apply_auto_uo-untouched :
    (ct : Ctype) (modern : Bool) (ss : List CharState)
    → any is_touched ss ≡ false
    → apply_auto_uo ct modern ss ≡ ss
unfolding apply_auto_uo
apply_auto_uo-untouched ct modern ss h =
    let g =
      auto_uo_from-untouched ct modern (length ss - 2 - (length ss - 4)) (length ss - 4) ss h in
    ground arith

-- Untouched letters are left as they are, with the settings and the quick start key.
pub finalize_regular_char-untouched :
    (ct : Ctype) (e : Engine)
    → any is_touched e.states ≡ false
    → ((finalize_regular_char ct e).states ≡ e.states)
      × ((finalize_regular_char ct e).config ≡ e.config)
      × ((finalize_regular_char ct e).quick_start_key ≡ e.quick_start_key)
      × ((finalize_regular_char ct e).raw_input ≡ e.raw_input)
unfolding finalize_regular_char reverts_w update_spell_state
finalize_regular_char-untouched ct e h =
    let r = relocate-untouched ct e.config.modern_ortho e.states h in
    let a = apply_auto_uo-untouched ct e.config.modern_ortho e.states h in
    let f = at-untouched e.states 0 h in ground arith
