-- ===== src/Hook/Commit.antt =====
-- `CommitState` of src/app/system/CommitState.h: the state machine of a commit undo and the stack of
-- commits, oldest first. The clock, in 32 bits, is an argument.
use nexus_key.Base.{
  ℕ, zero, suc, ◌+◌, ◌-◌, ◌%◌, ◌^◌, ◌≤◌, ◌<◌, ◌≡◌, ◌∙◌, refl, sym, ap, Bool, true, false, ◌&&◌, ltb,
  leb, if◌then◌else◌, List, [], ◌∷◌, ◌++◌, append-nil, append_assoc, Wstring, length, length-append,
  drop, arith, Bool-cases, inl, inr,
}

pub data State : Type 0 where
  idle ready primed : State

pub record Entry : Type 0 where
  pub history : Wstring
  pub text : Wstring
  pub raw_input : Wstring
  pub widths : List ℕ
  pub extra_leading_triggers : ℕ

abbrev pub backspace_marker : ℕ
backspace_marker = 0x08

abbrev pub max_stack : ℕ
max_stack = 3

abbrev pub ready_timeout_ms : ℕ
ready_timeout_ms = 4000

pub record CommitState : Type 0 where
  pub state : State
  pub stack : List Entry
  pub pushed_to_stack : Bool
  pub pending_trigger_count : ℕ
  pub leading_triggers_for_current_word : ℕ
  pub ready_time : ℕ
  pub input_history : Wstring

abbrev pub set_idle : CommitState → CommitState
set_idle c = record c { state = idle }

unfoldable pub set_ready : ℕ → CommitState → CommitState
set_ready now c = record c { state = ready; ready_time = now }

abbrev pub set_primed : CommitState → CommitState
set_primed c = record c { state = primed }

abbrev is_ready : State → Bool
is_ready ready = true
is_ready _ = false

unfoldable pub ready_expired : ℕ → CommitState → Bool
ready_expired now c =
    is_ready c.state && ltb ready_timeout_ms ((now + (2 ^ 32 - c.ready_time % 2 ^ 32)) % 2 ^ 32)

unfoldable pub increment_pending_triggers : CommitState → CommitState
increment_pending_triggers c =
    if ltb c.pending_trigger_count 0xFF
    then record c { pending_trigger_count = c.pending_trigger_count + 1 }
    else c

unfoldable pub decrement_pending_triggers : CommitState → CommitState
decrement_pending_triggers c = record c { pending_trigger_count = c.pending_trigger_count - 1 }

abbrev pub append_history : ℕ → CommitState → CommitState
append_history ch c = record c { input_history = c.input_history ++ ch ∷ [] }

unfoldable pub push_entry : Entry → CommitState → CommitState
push_entry e c = record c {
  stack = (if leb max_stack (length c.stack) then drop 1 c.stack else c.stack) ++ e ∷ [];
}

-- All but the last.
abbrev pub without_last {ℓ} : {A : Type ℓ} → List A → List A
without_last [] = []
without_last (x ∷ []) = []
without_last (x ∷ y ∷ xs) = x ∷ without_last (y ∷ xs)

unfoldable pub pop_stack_top : CommitState → CommitState
pop_stack_top c = record c { stack = without_last c.stack }

unfoldable pub cancel : CommitState → CommitState
cancel c = record c {
  state = idle;
  pending_trigger_count = 0;
  leading_triggers_for_current_word = 0;
  stack = [];
}

abbrev pub push_entries : List Entry → CommitState → CommitState
push_entries [] c = c
push_entries (e ∷ entries) c = push_entries entries (push_entry e c)

drop-append {ℓ} :
    {A : Type ℓ} (n : ℕ) (xs ys : List A) → n ≤ length xs → drop n (xs ++ ys) ≡ drop n xs ++ ys
drop-append zero xs ys h = refl
drop-append (suc n) [] ys h = absurd (omega arith)
drop-append (suc n) (x ∷ xs) ys h = drop-append n xs ys (omega (arith, h))

-- What the stack keeps of a list: its last three entries.
abbrev pub youngest : List Entry → List Entry
youngest entries = drop (length entries - max_stack) entries

length-drop {ℓ} : {A : Type ℓ} (n : ℕ) (xs : List A) → length (drop n xs) ≡ length xs - n
length-drop zero xs = omega arith
length-drop (suc n) [] = omega arith
length-drop (suc n) (x ∷ xs) = omega (arith, length-drop n xs)

drop-drop {ℓ} : {A : Type ℓ} (n : ℕ) (xs : List A) → drop 1 (drop n xs) ≡ drop (suc n) xs
drop-drop zero [] = refl
drop-drop zero (x ∷ xs) = refl
drop-drop (suc n) [] = refl
drop-drop (suc n) (x ∷ xs) = drop-drop n xs

push_entry-youngest :
    (e : Entry) (c : CommitState) (all_ : List Entry)
    → c.stack ≡ youngest all_
    → (push_entry e c).stack ≡ youngest (all_ ++ e ∷ [])
unfolding push_entry
push_entry-youngest e c all_ h =
    let n = length all_ in
    let l = length-drop (n - max_stack) all_ in
    let a = length-append all_ (e ∷ []) in
    rw h (elim (Bool-cases (leb max_stack n)) [
      | inl k ↦
          let x : leb max_stack (length (youngest all_)) ≡ true = ground (arith, l) in
          let y : length (all_ ++ e ∷ []) - max_stack ≡ suc (n - max_stack) = ground (arith, a) in
          let z = drop-append (suc (n - max_stack)) all_ (e ∷ []) (ground arith) in
          rw (x, y) (ap (λ s. s ++ e ∷ []) (drop-drop (n - max_stack) all_) ∙ sym z)
      | inr k ↦
          let x : leb max_stack (length (youngest all_)) ≡ false = ground (arith, l) in
          let y : length (all_ ++ e ∷ []) - max_stack ≡ 0 = ground (arith, a) in
          let z : n - max_stack ≡ 0 = ground arith in rw (x, y, z) refl
    ])

-- On a stack of the last three of some entries, after any pushes the stack is the last three of
-- these and the pushed entries, in order.
pub push_entries-youngest :
    (entries : List Entry) (c : CommitState) (before : List Entry)
    → c.stack ≡ youngest before
    → (push_entries entries c).stack ≡ youngest (before ++ entries)
push_entries-youngest [] c before h = h ∙ ap youngest (sym (append-nil before))
push_entries-youngest (e ∷ entries) c before h =
    push_entries-youngest entries (push_entry e c) (before ++ e ∷ [])
      (push_entry-youngest e c before h)
    ∙ ap youngest (append_assoc before (e ∷ []) entries)

-- A commit that became ready at a time is expired after a number of milliseconds below 2^32 exactly if
-- they are more than 4000, also where the clock of 32 bits has wrapped around in between.
pub ready_expired-set_ready :
    (c : CommitState) (start elapsed : ℕ)
    → start < 2 ^ 32
    → elapsed < 2 ^ 32
    → ready_expired ((start + elapsed) % 2 ^ 32) (set_ready start c) ≡ ltb 4000 elapsed
unfolding ready_expired set_ready
ready_expired-set_ready c start elapsed h k =
    let w : ((start + elapsed) % 2 ^ 32 + (2 ^ 32 - start % 2 ^ 32)) % 2 ^ 32 ≡ elapsed =
      omega (arith, h, k) in
    rw w refl
