-- ===== src/Engine/RawKeys.antt =====
-- `EraseConsumedRaw` and the links from the states to their raw keys; the escape of a tone.
use nexus_key.Base.{
  ℕ, zero, suc, ◌<◌, ◌≡◌, ◌≢◌, refl, ap, leb, Option, some, List, [], ◌∷◌, map, length, get_elem?,
  inl, inr, Bool-cases, arith,
}
use nexus_key.State.{CharState}
use nexus_key.Engine.Core.{Engine, erase_at, shift, shift_state, erase_consumed_raw}

length-erase_at : (i : ℕ) (cs : List ℕ) → i < length cs → suc (length (erase_at i cs)) ≡ length cs
unfolding erase_at
length-erase_at i [] h = absurd (omega arith)
length-erase_at zero (c ∷ cs) h = refl
length-erase_at (suc i) (c ∷ cs) h = omega (arith, length-erase_at i cs (omega arith))

shift-head : (i : ℕ) → shift zero (suc i) ≡ i
unfolding shift
shift-head i = ground arith

shift-before : (idx : ℕ) → shift (suc idx) zero ≡ zero
unfolding shift
shift-before idx = ground arith

shift-suc : (idx i : ℕ) → shift (suc idx) (suc i) ≡ suc (shift idx i)
unfolding shift
shift-suc idx i = ground arith

get_elem?-erase_at :
    (idx : ℕ) (cs : List ℕ) (i : ℕ)
    → i ≢ idx
    → get_elem? (erase_at idx cs) (shift idx i) ≡ get_elem? cs i
unfolding erase_at
get_elem?-erase_at idx [] i n = refl
get_elem?-erase_at zero (c ∷ cs) zero n = absurd (n refl)
get_elem?-erase_at zero (c ∷ cs) (suc i) n = ap (get_elem? cs) (shift-head i)
get_elem?-erase_at (suc idx) (c ∷ cs) zero n = rw (shift-before idx) refl
get_elem?-erase_at (suc idx) (c ∷ cs) (suc i) n =
    rw (shift-suc idx i) (get_elem?-erase_at idx cs i (λ e. n (ap suc e)))

get_elem?-map :
    (f : CharState → CharState) (ss : List CharState) (k : ℕ) (s : CharState)
    → get_elem? ss k ≡ some s
    → get_elem? (map f ss) k ≡ some (f s)
get_elem?-map f [] k s e = ground arith
get_elem?-map f (x ∷ ss) zero s e = ground arith
get_elem?-map f (x ∷ ss) (suc k) s e = get_elem?-map f ss k s e

-- The raw key that an index refers to.
abbrev pub key_of : Engine → ℕ → Option ℕ
key_of e i = get_elem? e.raw_input i

-- Whatever raw key is erased, a state that does not stand for it still stands at its position, and
-- its index still refers to its own key.
pub erase_consumed_raw-keeps :
    (e : Engine) (idx k : ℕ) (s : CharState)
    → get_elem? e.states k ≡ some s
    → s.raw_idx ≢ idx
    → (s' : CharState) × (get_elem? (erase_consumed_raw idx e).states k ≡ some s')
      × (s'.base ≡ s.base)
      × (key_of (erase_consumed_raw idx e) s'.raw_idx ≡ key_of e s.raw_idx)
unfolding erase_consumed_raw shift_state
erase_consumed_raw-keeps e idx k s g n = elim (Bool-cases (leb (length e.raw_input) idx)) [
  | inl l ↦ (s, rw l g, refl, rw l refl)
  | inr l ↦ (
    shift_state idx s,
    rw l (get_elem?-map (shift_state idx) e.states k s g),
    refl,
    rw l (get_elem?-erase_at idx e.raw_input s.raw_idx n),
  )
]
