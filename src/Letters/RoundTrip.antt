-- ===== src/Letters/RoundTrip.antt =====
-- Composing a state and decomposing the character gives the state's letter back.
use nexus_key.Base.{
  ℕ, ◌≡◌, refl, Bool, true, false, ◌==◌, ◌-◌, ◌&&◌, &&-right, Bool-cases, inl, inr, ==_iff,
  if◌then◌else◌, Option, some, arith,
}
use nexus_key.State.{CharState}
use nexus_key.Letters.Case.{
  Ctype, FollowsUnicode, FollowsAscii, is_tilde, is_lower_letter, to_upper_vietnamese,
}
use nexus_key.Letters.Compose.{compose}
use nexus_key.Letters.Decompose.{Decomposed, decompose_lower, decompose_viet_char}
use nexus_key.Letters.CaseLaws.{
  FollowsUnicode-FollowsAscii, fixed-FollowsAscii, capital-FollowsAscii,
}
use nexus_key.Letters.Composed.{
  is_letter, parts, lower_char, good_lem, compose-lower_char, lower_char-is_lower,
  decompose_lower-lower_char,
}

decompose_cased :
    (ct : Ctype) (c : ℕ) (upper : Bool) (d : Option Decomposed)
    → FollowsAscii ct
    → is_lower_letter c ≡ true
    → (upper && is_tilde c ≡ true → ct.towlower (c - 1) ≡ c)
    → decompose_lower c upper ≡ d
    → decompose_viet_char ct (if upper then to_upper_vietnamese ct c else c) ≡ d
unfolding decompose_viet_char
decompose_cased ct c false d u l k e = rw (fixed-FollowsAscii ct c u l, (==_iff c c).1 refl) e
decompose_cased ct c true d u l k e =
    let p = capital-FollowsAscii ct c u l k in
    let n : (c == to_upper_vietnamese ct c) ≡ false = ground (arith, p.1) in rw (p.0, n) e

-- A capital i or u with a tilde.
abbrev pub is_tilde_capital : CharState → Bool
is_tilde_capital s = s.is_upper && is_tilde (lower_char s.base s.mod_ s.tone)

-- For every state that is a letter, `DecomposeVietChar` of its composed character finds the base, the
-- modifier, the tone and the case of the state. The C library must follow Unicode on ASCII and leave small
-- letters as they are; for a capital i or u with a tilde, and for no other state, it must moreover give
-- the small letter of that capital.
pub decompose-compose :
    (ct : Ctype) (s : CharState)
    → FollowsAscii ct
    → (is_tilde_capital s ≡ true
        → ct.towlower (lower_char s.base s.mod_ s.tone - 1) ≡ lower_char s.base s.mod_ s.tone)
    → is_letter s ≡ true
    → decompose_viet_char ct (compose ct s) ≡ some (parts s)
decompose-compose ct s u k h =
    let c : ℕ = lower_char s.base s.mod_ s.tone in
    let g = good_lem s.base s.mod_ s.tone h in
    let l = lower_char-is_lower s.base s.mod_ s.tone g in
    rw (compose-lower_char ct s h) (
      decompose_cased ct c s.is_upper _ u l k
        (decompose_lower-lower_char s.base s.mod_ s.tone s.is_upper g))

tilde_second : (c : ℕ) → is_tilde c ≡ true → (c == 0x129) ≡ false → c ≡ 0x169
tilde_second c h e = ground (arith, h, e)

tilde-FollowsUnicode :
    (ct : Ctype) (c : ℕ) → FollowsUnicode ct → is_tilde c ≡ true → ct.towlower (c - 1) ≡ c
tilde-FollowsUnicode ct c u h = elim (Bool-cases (c == 0x129)) [
  | inl e ↦ rw ((==_iff c 0x129).0 e) u.lower_i_tilde
  | inr e ↦ rw (tilde_second c h e) u.lower_u_tilde
]

-- The same where the C library follows Unicode throughout.
pub decompose-compose_unicode :
    (ct : Ctype) (s : CharState)
    → FollowsUnicode ct
    → is_letter s ≡ true
    → decompose_viet_char ct (compose ct s) ≡ some (parts s)
decompose-compose_unicode ct s u h =
    decompose-compose ct s (FollowsUnicode-FollowsAscii ct u)
      (λ t. tilde-FollowsUnicode ct (lower_char s.base s.mod_ s.tone) u (&&-right s.is_upper _ t)) h
