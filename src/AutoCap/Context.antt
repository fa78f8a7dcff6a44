-- ===== src/AutoCap/Context.antt =====
-- The anchor that a text service publishes: `HookContextAnchor` and `DeriveAnchorFromPreceding` of
-- src/core/ipc/SharedState.h. The text before the caret is given from the caret backwards, and so is
-- `currentSyllable`.
use nexus_key.Base.{
  ℕ, zero, suc, ◌≤◌, ◌≡◌, refl, ap, Bool, true, false, not, ◌||◌, ◌==◌, if◌then◌else◌, some,
  Bool-cases, inl, inr, List, [], ◌∷◌, all, take, length, arith,
}
use nexus_key.AutoCap.{
  Anchor, AutoCapState, alpha_auto_cap, CapTrigger, no_trigger, doc_start, line_start, sentence_end,
  classify_cap_trigger, compute_should_auto_cap, is_ready,
}

pub record HookContextAnchor : Type 0 where
  pub is_sentence_start : Bool
  pub is_line_start : Bool
  pub is_word_start : Bool
  pub syllable_len : ℕ
  pub current_syllable : List ℕ

abbrev pub is_white : ℕ → Bool
is_white c = c == b' ' || c == 0x09 || c == 0x0A || c == 0x0D

abbrev pub max_syllable : ℕ
max_syllable = 16

-- The run of characters that are no white space, from the caret backwards.
unfoldable pub word_run : List ℕ → List ℕ
word_run [] = []
word_run (c ∷ before) = let rest = word_run before in if is_white c then [] else c ∷ rest

-- An empty document, or none that can be read.
abbrev pub fresh_anchor : HookContextAnchor
fresh_anchor = record {
  is_sentence_start = true;
  is_line_start = true;
  is_word_start = true;
  syllable_len = 0;
  current_syllable = [];
}

-- The `switch` on the trigger.
abbrev pub starts : CapTrigger → Anchor
starts doc_start = record { is_sentence_start = true; is_line_start = true }
starts line_start = record { is_sentence_start = false; is_line_start = true }
starts sentence_end = record { is_sentence_start = true; is_line_start = false }
starts no_trigger = record { is_sentence_start = false; is_line_start = false }

unfoldable pub derive_anchor : List ℕ → HookContextAnchor
derive_anchor [] = fresh_anchor
derive_anchor (last ∷ before) =
    let s = starts (classify_cap_trigger (last ∷ before)) in
    let syllable = take max_syllable (word_run (last ∷ before)) in
    record {
      is_sentence_start = s.is_sentence_start;
      is_line_start = s.is_line_start;
      is_word_start = is_white last;
      syllable_len = if is_white last then 0 else length syllable;
      current_syllable = if is_white last then [] else syllable;
    }

-- What the hook reads of it.
abbrev pub published : HookContextAnchor → Anchor
published a = record { is_sentence_start = a.is_sentence_start; is_line_start = a.is_line_start }

starts-trigger :
    (t : CapTrigger)
    → ((starts t).is_sentence_start || (starts t).is_line_start) ≡ nexus_key.AutoCap.is_trigger t
starts-trigger no_trigger = refl
starts-trigger doc_start = refl
starts-trigger line_start = refl
starts-trigger sentence_end = refl

-- A letter at the start of a word of the engine, with automatic capitals on and the anchor that is
-- derived from the text before the caret, is capitalized exactly if `ComputeShouldAutoCap` says so of
-- that text, whatever the state machine of the keys has come to.
pub alpha_auto_cap-derive_anchor :
    (before : List ℕ) (s : AutoCapState)
    → (alpha_auto_cap true true (some (published (derive_anchor before))) s).0
      ≡ compute_should_auto_cap before
unfolding alpha_auto_cap derive_anchor compute_should_auto_cap classify_cap_trigger
    nexus_key.AutoCap.classify_from
alpha_auto_cap-derive_anchor [] s = refl
alpha_auto_cap-derive_anchor (c ∷ before) s = starts-trigger (classify_cap_trigger (c ∷ before))

length-take : (n : ℕ) (xs : List ℕ) → length (take n xs) ≤ n
length-take zero xs = omega arith
length-take (suc n) [] = omega arith
length-take (suc n) (x ∷ xs) = omega (arith, length-take n xs)

run-prefix :
    (n : ℕ) (before : List ℕ)
    → let s = take n (word_run before) in
      (take (length s) before ≡ s) × (all (λ c. not (is_white c)) s ≡ true)
unfolding word_run
run-prefix zero before = (refl, refl)
run-prefix (suc n) [] = (refl, refl)
run-prefix (suc n) (c ∷ before) =
    let r = run-prefix n before in
    elim (Bool-cases (is_white c)) [
      | inl w ↦ rw (word_run, w) (refl, refl)
      | inr w ↦ rw (word_run, w) (ap (λ t. c ∷ t) r.0, rw w r.1)
    ]

-- The syllable that the anchor gives has its length, 16 characters at most, none of them white space,
-- and it is what stands right before the caret; it is empty at the start of a word.
pub derive_anchor-syllable :
    (before : List ℕ)
    → let a = derive_anchor before in
      (a.syllable_len ≡ length a.current_syllable)
      × (a.syllable_len ≤ 16)
      × (take a.syllable_len before ≡ a.current_syllable)
      × (all (λ c. not (is_white c)) a.current_syllable ≡ true)
      × (a.is_word_start ≡ true → a.syllable_len ≡ 0)
unfolding derive_anchor
derive_anchor-syllable [] = (refl, omega arith, refl, refl, λ h. refl)
derive_anchor-syllable (c ∷ before) =
    let r = run-prefix max_syllable (c ∷ before) in
    let l = length-take max_syllable (word_run (c ∷ before)) in
    elim (Bool-cases (is_white c)) [
      | inl w ↦ rw w (refl, omega arith, refl, refl, λ h. refl)
      | inr w ↦ rw w (refl, l, r.0, r.1, λ h. ground arith)
    ]
