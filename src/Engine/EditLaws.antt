-- ===== src/Engine/EditLaws.antt =====
-- `Backspace` and `HandleUndoAllMarks` on the states and the raw keys.
use nexus_key.Base.{
  ℕ, zero, suc, ◌-◌, ◌≤◌, ◌<◌, ◌≡◌, ◌∙◌, refl, ap, false, ◌==◌, ltb, none, map, any, some, List, [],
  ◌∷◌, length, get_elem?, take, inl, inr, Bool-cases, arith,
}
use nexus_key.State.{CharState, at, has_modifier, has_tone}
use nexus_key.Letters.{Ctype}
use nexus_key.Engine.Core.{
  Engine, process_char, process_key, update_spell_state, recheck_bias, not_escaped,
}
use nexus_key.Engine.Edit.{drop_last, cut, undo_quick_start, pop_state, backspace}
use nexus_key.Engine.Modify.{unmark, is_marked, handle_undo_all_marks}

pub length-drop_last {ℓ} : {A : Type ℓ} (xs : List A) → length (drop_last xs) ≡ length xs - 1
unfolding drop_last
length-drop_last [] = refl
length-drop_last (x ∷ []) = refl
length-drop_last (x ∷ y ∷ xs) = omega (arith, length-drop_last (y ∷ xs))

length-take {ℓ} : {A : Type ℓ} (n : ℕ) (xs : List A) → n ≤ length xs → length (take n xs) ≡ n
length-take zero xs h = refl
length-take (suc n) [] h = absurd (omega arith)
length-take (suc n) (x ∷ xs) h = omega (arith, length-take n xs (omega arith))

pop_state-states : (ct : Ctype) (e : Engine) → (pop_state ct e).states ≡ drop_last e.states
unfolding pop_state recheck_bias update_spell_state
pop_state-states ct e = refl

pop_state-raw :
    (ct : Ctype) (e : Engine)
    → (pop_state ct e).raw_input ≡ cut (at e.states (length e.states - 1)).raw_idx e.raw_input
unfolding pop_state recheck_bias update_spell_state
pop_state-raw ct e = refl

undo_quick_start-length : (ct : Ctype) (e : Engine) → length (undo_quick_start ct e).states ≡ 1
unfolding undo_quick_start update_spell_state process_key process_char
undo_quick_start-length ct e = refl

-- While no quick consonant is active, `Backspace` on a buffer that is not empty takes exactly one
-- state away, with or without a quick start consonant.
pub length-backspace :
    (ct : Ctype) (e : Engine)
    → 0 < length e.states
    → e.qc.result_index ≡ none
    → suc (length (backspace ct e).states) ≡ length e.states
unfolding backspace
length-backspace ct e n q =
    let f : Engine = record e { escape = not_escaped } in
    let g : Engine = record f { quick_start_key = 0 } in
    let popped = ap length (pop_state-states ct g) ∙ length-drop_last e.states in
    ground (arith, undo_quick_start-length ct f, popped)

get_elem?-drop_last {ℓ} :
    {A : Type ℓ} (xs : List A) (k : ℕ)
    → suc k < length xs
    → get_elem? (drop_last xs) k ≡ get_elem? xs k
unfolding drop_last
get_elem?-drop_last [] k h = absurd (omega arith)
get_elem?-drop_last (x ∷ []) k h = absurd (omega arith)
get_elem?-drop_last (x ∷ y ∷ xs) zero h = refl
get_elem?-drop_last (x ∷ y ∷ xs) (suc k) h = get_elem?-drop_last (y ∷ xs) k (omega arith)

length-cut : (n : ℕ) (raw : List ℕ) → length (cut n raw) ≤ n
unfolding cut
length-cut n raw = elim (Bool-cases (ltb n (length raw))) [
  | inl l ↦ (let t = length-take n raw (ground arith) in ground arith)
  | inr l ↦ ground arith
]

backspace-pops :
    (ct : Ctype) (e : Engine)
    → 0 < length e.states
    → e.quick_start_key ≡ 0
    → e.qc.result_index ≡ none
    → backspace ct e ≡ pop_state ct (record e { escape = not_escaped; quick_start_key = 0 })
unfolding backspace
backspace-pops ct e n k q = ground arith

-- The state at a position has a tone key whose index is no index of the raw keys.
abbrev pub IsDangling : Engine → ℕ → Type 0
IsDangling e k =
    (s : CharState) × (t : ℕ) × (get_elem? e.states k ≡ some s)
    × (s.tone_raw_idx ≡ some t)
    × (length e.raw_input ≤ t)

-- With no quick consonant and no quick start key, `Backspace` takes the raw keys away from that of
-- the last state on, but leaves the tone key of the other states as it is: a state whose tone was
-- typed after the letter that is deleted is left with a tone key whose index is no index of the raw
-- keys.
pub backspace-IsDangling :
    (ct : Ctype) (e : Engine) (k t : ℕ) (s : CharState)
    → e.quick_start_key ≡ 0
    → e.qc.result_index ≡ none
    → suc k < length e.states
    → get_elem? e.states k ≡ some s
    → s.tone_raw_idx ≡ some t
    → (at e.states (length e.states - 1)).raw_idx ≤ t
    → IsDangling (backspace ct e) k
backspace-IsDangling ct e k t s q r l g h b =
    let f : Engine = record e { escape = not_escaped; quick_start_key = 0 } in
    let pops = backspace-pops ct e (omega arith) q r in
    let states =
      ap (λ x. get_elem? x.states k) pops ∙ ap (λ x. get_elem? x k) (pop_state-states ct f) in
    let raw = ap (λ x. length x.raw_input) pops ∙ ap length (pop_state-raw ct f) in
    let cut_le = length-cut (at e.states (length e.states - 1)).raw_idx e.raw_input in
    (s, t, states ∙ get_elem?-drop_last e.states k l ∙ g, h, omega arith)

unmark-plain : (s : CharState) → is_marked (unmark s) ≡ false
unfolding unmark has_modifier has_tone
unmark-plain s = ground arith

any-unmark : (ss : List CharState) → any is_marked (map unmark ss) ≡ false
any-unmark [] = refl
any-unmark (s ∷ ss) = rw (unmark-plain s) (any-unmark ss)

base-unmark : (ss : List CharState) → map (λ s. s.base) (map unmark ss) ≡ map (λ s. s.base) ss
unfolding unmark
base-unmark [] = refl
base-unmark (s ∷ ss) = ground (arith, base-unmark ss)

any-empty : (ss : List CharState) → length ss ≡ 0 → any is_marked ss ≡ false
any-empty [] h = refl
any-empty (s ∷ ss) h = absurd (omega arith)

-- `HandleUndoAllMarks` leaves no modifier and no tone in the buffer, keeps the base letters, and
-- tells whether there was a mark.
pub handle_undo_all_marks_lem :
    (e : Engine)
    → (any is_marked (handle_undo_all_marks e).1.states ≡ false)
      × (map (λ s. s.base) (handle_undo_all_marks e).1.states ≡ map (λ s. s.base) e.states)
      × ((handle_undo_all_marks e).0 ≡ any is_marked e.states)
unfolding handle_undo_all_marks
handle_undo_all_marks_lem e =
    let plain = any-unmark e.states in
    let bases = base-unmark e.states in
    elim (Bool-cases (length e.states == 0)) [
      | inl z ↦ (let none_marked = any-empty e.states (ground arith) in ground arith)
      | inr z ↦ ground arith
    ]
