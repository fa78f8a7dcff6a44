-- ===== src/Engine/Growth/Typing.antt =====
-- The dispatch of the rules, `PushChar`, and a sequence of keys.
use nexus_key.Base.{
  ℕ, ◌+◌, ◌*◌, ◌≤◌, ◌≡◌, ◌∙◌, refl, ap, sym, append-nil, append_assoc, List, [], ◌∷◌, ◌++◌, length,
  arith,
}
use nexus_key.Letters.{Ctype}
use nexus_key.Engine.Core.{Engine}
use nexus_key.Engine.PushChar.{record_key, push_char}
use nexus_key.Engine.Growth.Quicks.{Keeps}
use nexus_key.Engine.Growth.Dispatch.{pre_step, pre-Settles, pre-Steps, push_classified-Grows}

push_char-Keeps :
    (ct : Ctype) (key : ℕ) (e : Engine) → Keeps 3 (record_key key e) (push_char ct key e)
unfolding push_char
push_char-Keeps ct key e =
    let start = record_key key e in
    let settled = pre-Settles ct key start in
    let f : Engine = (pre_step ct key start).1 in
    let g = push_classified-Grows ct key f in ground arith

-- A key enters the history of the keys as it was typed, whatever the rules make of it; the settings
-- stay, and the buffer grows by three letters at most.
push_char_lem :
    (ct : Ctype) (key : ℕ) (e : Engine)
    → (push_char ct key e).esc_raw_history ≡ e.esc_raw_history ++ key ∷ []
      × (push_char ct key e).config ≡ e.config
      × length (push_char ct key e).states ≤ length e.states + 3
unfolding record_key
push_char_lem ct key e = let k = push_char-Keeps ct key e in (k.history, k.config, k.no_more)

-- While no quick start key waits, a key takes no letter from the buffer and adds two at most.
pub push_char-length :
    (ct : Ctype) (key : ℕ) (e : Engine)
    → e.quick_start_key ≡ 0
    → length e.states ≤ length (push_char ct key e).states
      × length (push_char ct key e).states ≤ length e.states + 2
unfolding push_char record_key
push_char-length ct key e z =
    let start = record_key key e in
    let settled = pre-Steps ct key start z in
    let f : Engine = (pre_step ct key start).1 in
    let g = push_classified-Grows ct key f in ground arith

-- The keys of a word, one after the other.
unfoldable pub type_keys : Ctype → List ℕ → Engine → Engine
type_keys ct [] e = e
type_keys ct (k ∷ ks) e = type_keys ct ks (push_char ct k e)

-- The history of the keys of a word is the keys in the order in which they were typed, whatever the
-- engine made of them; the settings stay, and the buffer grows by three letters a key at most.
pub type_keys-keeps :
    (ct : Ctype) (ks : List ℕ) (e : Engine)
    → (type_keys ct ks e).esc_raw_history ≡ e.esc_raw_history ++ ks
      × (type_keys ct ks e).config ≡ e.config
      × length (type_keys ct ks e).states ≤ length e.states + 3 * length ks
unfolding type_keys
type_keys-keeps ct [] e = (sym (append-nil e.esc_raw_history), refl, omega arith)
type_keys-keeps ct (k ∷ ks) e =
    let (h, c, n) = push_char_lem ct k e in
    let (hs, cs, ns) = type_keys-keeps ct ks (push_char ct k e) in
    (
      hs ∙ ap (λ t. t ++ ks) h ∙ append_assoc e.esc_raw_history (k ∷ []) ks,
      cs ∙ c,
      omega (arith, n, ns),
    )
