-- ===== src/Letters/CaseLaws.antt =====
-- Upper and lower case of the engine's letters.
use nexus_key.Base.{ℕ, ◌-◌, ◌≡◌, ◌≢◌, true, arith}
use nexus_key.Letters.Case.{
  Ctype, FollowsUnicode, FollowsAscii, is_tilde, is_lower_letter, to_upper_vietnamese,
  to_lower_vietnamese,
}

pub FollowsUnicode-FollowsAscii : (ct : Ctype) → FollowsUnicode ct → FollowsAscii ct
FollowsUnicode-FollowsAscii ct u = record {
  lower_ascii = u.lower_ascii;
  upper_ascii = u.upper_ascii;
  lower_fixed = u.lower_fixed;
}

-- Lowering leaves a small letter.
pub fixed-FollowsAscii :
    (ct : Ctype) (c : ℕ) → FollowsAscii ct → is_lower_letter c ≡ true → to_lower_vietnamese ct c ≡ c
unfolding to_lower_vietnamese
fixed-FollowsAscii ct c u h = ground (arith, u.lower_fixed c)

-- The capital of a small letter, and the letter back, where `towlower` is not asked for a capital i or u
-- with a tilde or gives the small letter.
pub capital-FollowsAscii :
    (ct : Ctype) (c : ℕ)
    → FollowsAscii ct
    → is_lower_letter c ≡ true
    → (is_tilde c ≡ true → ct.towlower (c - 1) ≡ c)
    → (to_lower_vietnamese ct (to_upper_vietnamese ct c) ≡ c) × (to_upper_vietnamese ct c ≢ c)
unfolding to_lower_vietnamese to_upper_vietnamese
capital-FollowsAscii ct c u h k = ground (arith, u.upper_ascii c, u.lower_ascii (ct.towupper c), k)

pub to_lower_vietnamese-fixed :
    (ct : Ctype) (c : ℕ)
    → FollowsUnicode ct
    → is_lower_letter c ≡ true
    → to_lower_vietnamese ct c ≡ c
unfolding to_lower_vietnamese
to_lower_vietnamese-fixed ct c u h = ground (arith, u.lower_fixed c)

-- Every lower-case letter of the engine has an upper-case form of its own, and lowering that form
-- gives the letter back.
pub to_lower-to_upper :
    (ct : Ctype) (c : ℕ)
    → FollowsUnicode ct
    → is_lower_letter c ≡ true
    → (to_lower_vietnamese ct (to_upper_vietnamese ct c) ≡ c) × (to_upper_vietnamese ct c ≢ c)
unfolding to_lower_vietnamese to_upper_vietnamese
to_lower-to_upper ct c u h =
    ground (arith, u.upper_ascii c, u.lower_ascii (ct.towupper c), u.lower_i_tilde, u.lower_u_tilde)
