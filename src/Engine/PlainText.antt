-- ===== src/Engine/PlainText.antt =====
-- A word of plain keys reads as it was typed.
use nexus_key.Base.{
  ◌||◌, Wstring, inl, inr, ℕ, ◌≡◌, ◌∙◌, refl, ap, sym, Bool, true, false, not, ◌&&◌, ◌==◌,
  if◌then◌else◌, List, [], ◌∷◌, ◌++◌, append-nil, append_assoc, any, Option-cases, arith,
}
use nexus_key.State.{CharState, no_mod, no_tone, is_empty}
use nexus_key.Letters.{
  Ctype, compose, to_upper_vietnamese, apply_modifier, apply_tone, vowel_base_index,
  tone_base_index,
}
use nexus_key.Config.{TypingConfig}
use nexus_key.Engine.Core.{Engine, compose_all, peek}
use nexus_key.Engine.Edit.{match_case, commit_text, commit}
use nexus_key.Engine.CommitLaws.{restored-cases, commit_text-cases}
use nexus_key.Engine.PushChar.{record_key, push_char}
use nexus_key.Engine.Growth.Typing.{type_keys}
use nexus_key.Engine.Plain.{
  IsQuickOff, is_plain_key, plain_state, Adds, push_char-plain, plain_state-untouched,
}
use nexus_key.Engine.Untouched.{is_touched}

-- The case of a plain key is that of its letter.
abbrev pub cased : Ctype → ℕ → ℕ
cased ct key = if ct.iswupper key then to_upper_vietnamese ct (ct.towlower key) else ct.towlower key

-- A plain key whose letter is the key itself.
abbrev pub is_text_key : Ctype → TypingConfig → ℕ → Bool
is_text_key ct config key =
    is_plain_key ct config key
    && not (ct.towlower key == 0)
    && not (key == 0)
    && cased ct key == key

apply_modifier-none : (base : ℕ) → apply_modifier base no_mod ≡ base
unfolding apply_modifier
apply_modifier-none base = ground (arith, Option-cases (vowel_base_index base))

apply_tone-none : (c : ℕ) → apply_tone c no_tone ≡ c
unfolding apply_tone
apply_tone-none c = ground (arith, Option-cases (tone_base_index c))

compose-plain :
    (ct : Ctype) (key : ℕ) (e : Engine)
    → (ct.towlower key == 0) ≡ false
    → compose ct (plain_state ct key e) ≡ cased ct key
unfolding compose is_empty
compose-plain ct key e h =
    let m = apply_modifier-none (ct.towlower key) in
    let t = apply_tone-none (ct.towlower key) in ground arith

compose-text :
    (ct : Ctype) (config : TypingConfig) (key : ℕ) (e : Engine)
    → is_text_key ct config key ≡ true
    → compose ct (plain_state ct key e) ≡ key
compose-text ct config key e h = ground (arith, compose-plain ct key e)

compose_all-snoc :
    (ct : Ctype) (ss : List CharState) (s : CharState)
    → (compose ct s == 0) ≡ false
    → compose_all ct (ss ++ s ∷ []) ≡ compose_all ct ss ++ compose ct s ∷ []
unfolding compose_all
compose_all-snoc ct [] s h = rw h refl
compose_all-snoc ct (r ∷ ss) s h = ground (arith, compose_all-snoc ct ss s h)

-- The engine is ready for a plain word: no quick consonants, and no letter that a key has changed.
abbrev pub IsPlain : Engine → Type 0
IsPlain e = IsQuickOff e × (any is_touched e.states ≡ false)

Adds-IsPlain : (ct : Ctype) (key : ℕ) (e f : Engine) → IsPlain e → Adds ct key e f → IsPlain f
unfolding record_key
Adds-IsPlain ct key e f ((a, b, c, d), h) (s, g, q, r) = (
  (
    ap (λ t. t.quick_consonant) g ∙ a,
    ap (λ t. t.quick_start_consonant) g ∙ b,
    ap (λ t. t.quick_end_consonant) g ∙ c,
    q ∙ d,
  ),
  ap (any is_touched) s ∙ plain_state-untouched ct key (record_key key e) h,
)

Adds-peek :
    (ct : Ctype) (key : ℕ) (e f : Engine)
    → is_text_key ct e.config key ≡ true
    → Adds ct key e f
    → peek ct f ≡ peek ct e ++ key ∷ []
unfolding peek
Adds-peek ct key e f text (s, g, q, r) =
    let letter_state = plain_state ct key (record_key key e) in
    let letter = compose-text ct e.config key (record_key key e) text in
    ap (compose_all ct) s
    ∙ compose_all-snoc ct e.states letter_state (rw letter (ground arith))
    ∙ ap (λ c. compose_all ct e.states ++ c ∷ []) letter

-- With no quick consonants and no letter in the buffer that a key has changed, keys that no table of the
-- input method lists, and whose letters they are, are shown exactly as they were typed, after what the
-- buffer showed before.
pub type_keys-peek :
    (ct : Ctype) (ks : List ℕ) (e : Engine)
    → IsPlain e
    → any (λ k. not (is_text_key ct e.config k)) ks ≡ false
    → peek ct (type_keys ct ks e) ≡ peek ct e ++ ks
unfolding type_keys
type_keys-peek ct [] e p h = sym (append-nil (peek ct e))
type_keys-peek ct (k ∷ ks) e p h =
    let f = push_char ct k e in
    let added = push_char-plain ct k e p.0 p.1 (ground arith) in
    let rest = type_keys-peek ct ks f (Adds-IsPlain ct k e f p added) (rw added.1 (ground arith)) in
    rest
    ∙ ap (λ t. t ++ ks) (Adds-peek ct k e f (ground arith) added)
    ∙ append_assoc (peek ct e) (k ∷ []) ks

type_keys-raw_input :
    (ct : Ctype) (ks : List ℕ) (e : Engine)
    → IsPlain e
    → any (λ k. not (is_text_key ct e.config k)) ks ≡ false
    → (type_keys ct ks e).raw_input ≡ e.raw_input ++ ks
unfolding type_keys
type_keys-raw_input ct [] e p h = sym (append-nil e.raw_input)
type_keys-raw_input ct (k ∷ ks) e p h =
    let f = push_char ct k e in
    let added = push_char-plain ct k e p.0 p.1 (ground arith) in
    let rest =
      type_keys-raw_input ct ks f (Adds-IsPlain ct k e f p added) (rw added.1 (ground arith)) in
    rest ∙ ap (λ t. t ++ ks) added.3 ∙ append_assoc e.raw_input (k ∷ []) ks

-- A capital is its own capital.
abbrev pub keeps_capital : Ctype → ℕ → Bool
keeps_capital ct k = not (ct.iswupper k) || ct.towupper k == k

match_case-same :
    (ct : Ctype) (s : Wstring)
    → any (λ k. not (keeps_capital ct k)) s ≡ false
    → match_case ct s s ≡ s
unfolding match_case
match_case-same ct [] h = refl
match_case-same ct (c ∷ s) h = ground arith

-- Where the composed text and the raw keys are the same, Commit returns them.
commit_text-same :
    (ct : Ctype) (e : Engine) (s : Wstring)
    → compose_all ct e.states ≡ s
    → e.raw_input ≡ s
    → any (λ k. not (keeps_capital ct k)) s ≡ false
    → commit_text ct e ≡ s
commit_text-same ct e s c r h = elim (commit_text-cases ct e) [
  | inl composed ↦ composed ∙ c
  | inr (inl (raw, k)) ↦ raw ∙ r
  | inr (inr spelled) ↦ elim (restored-cases ct e (compose_all ct e.states)) [
    | inl same ↦ spelled ∙ same ∙ c
    | inr (cased_raw, k) ↦ spelled ∙ cased_raw ∙ same_case
  ]
]
  where
    same_case : match_case ct e.raw_input (compose_all ct e.states) ≡ s
    same_case = rw (c, r) (match_case-same ct s h)

-- From an empty engine without quick consonants, a word of keys that no table of the input method lists,
-- and whose letters they are, capitals being their own capitals, is committed exactly as it was typed,
-- whatever the spell check says of it.
pub type_keys-commit :
    (ct : Ctype) (ks : List ℕ) (e : Engine)
    → IsQuickOff e
    → e.states ≡ []
    → e.raw_input ≡ []
    → any (λ k. not (is_text_key ct e.config k)) ks ≡ false
    → any (λ k. not (keeps_capital ct k)) ks ≡ false
    → (commit ct (type_keys ct ks e)).0 ≡ ks
unfolding commit peek compose_all
type_keys-commit ct ks e off no_states no_raw text capitals =
    let plain : IsPlain e = (off, ap (any is_touched) no_states) in
    let shown = type_keys-peek ct ks e plain text ∙ ap (λ t. compose_all ct t ++ ks) no_states in
    let raw = type_keys-raw_input ct ks e plain text ∙ ap (λ t. t ++ ks) no_raw in
    commit_text-same ct (type_keys ct ks e) ks shown raw capitals
