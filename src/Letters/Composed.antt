-- ===== src/Letters/Composed.antt =====
-- The characters that letters compose to, and their decomposition, by evaluation over all bases,
-- modifiers and tones.
use nexus_key.Base.{
  ℕ, zero, suc, ◌+◌, ◌<◌, ◌≤◌, ◌≡◌, refl, Bool, true, false, not, ◌&&◌, ◌||◌, ◌==◌, &&-left,
  &&-right, if◌then◌else◌, Option, none, some, arith,
}
use nexus_key.State.{
  Modifier, no_mod, circumflex, breve, horn, stroke, Tone, no_tone, mod_eq, CharState,
  is_vowel_base,
}
use nexus_key.Letters.Case.{Ctype, FollowsUnicode, between, is_lower_letter, to_upper_vietnamese}
use nexus_key.Letters.Compose.{tone_index, apply_modifier, apply_tone, compose}
use nexus_key.Letters.Decompose.{Decomposed, decompose_lower}

-- The modifiers that a letter can carry.
abbrev pub takes_modifier : ℕ → Modifier → Bool
takes_modifier b no_mod = between b'a' b'z' b
takes_modifier b circumflex = b == b'a' || b == b'e' || b == b'o'
takes_modifier b breve = b == b'a'
takes_modifier b horn = b == b'o' || b == b'u'
takes_modifier b stroke = b == b'd'

abbrev pub takes_tone : ℕ → Tone → Bool
takes_tone b no_tone = true
takes_tone b _ = is_vowel_base b

-- A base letter, a modifier and a tone that make a Vietnamese letter.
abbrev pub is_letter : CharState → Bool
is_letter s = takes_modifier s.base s.mod_ && takes_tone s.base s.tone

-- The index of a modifier in `DecomposeVietChar`.
abbrev pub decomposed_mod : Modifier → Option ℕ
decomposed_mod no_mod = none
decomposed_mod circumflex = some 0
decomposed_mod breve = some 1
decomposed_mod horn = some 2
decomposed_mod stroke = some 3

-- What `DecomposeVietChar` must find of a state.
abbrev pub parts : CharState → Decomposed
parts s = record {
  base = s.base;
  mod_idx = decomposed_mod s.mod_;
  tone_idx = tone_index s.tone;
  is_upper = s.is_upper;
}

-- The lower-case character of a state.
unfoldable pub lower_char : ℕ → Modifier → Tone → ℕ
lower_char b m t = if b == b'd' && mod_eq m stroke then 0x111 else apply_tone (apply_modifier b m) t

opt_eq : Option ℕ → Option ℕ → Bool
opt_eq none none = true
opt_eq (some x) (some y) = x == y
opt_eq _ _ = false

opt_eq_sound : (x y : Option ℕ) → opt_eq x y ≡ true → x ≡ y
unfolding opt_eq
opt_eq_sound none none h = refl
opt_eq_sound none (some y) h = ground arith
opt_eq_sound (some x) none h = ground arith
opt_eq_sound (some x) (some y) h = ground arith

bool_eq : Bool → Bool → Bool
bool_eq true b = b
bool_eq false b = not b

found : ℕ → Modifier → Tone → Bool → Option Decomposed → Bool
unfolding opt_eq bool_eq
found b m t u none = false
found b m t u (some d) =
    d.base == b
    && (opt_eq d.mod_idx (decomposed_mod m)
        && (opt_eq d.tone_idx (tone_index t) && bool_eq d.is_upper u))

found_sound :
    (b : ℕ) (m : Modifier) (t : Tone) (u : Bool) (o : Option Decomposed)
    → found b m t u o ≡ true
    → o
      ≡ some
          (record { base = b; mod_idx = decomposed_mod m; tone_idx = tone_index t; is_upper = u })
unfolding found
found_sound b m t u none h = ground arith
found_sound b m t u (some d) h =
    ground
      (arith, opt_eq_sound d.mod_idx (decomposed_mod m), opt_eq_sound d.tone_idx (tone_index t))

-- The composed letter is a lower-case letter, and decomposes to its parts under either case.
pub good : Modifier → Tone → ℕ → Bool
good m t b =
    is_lower_letter (lower_char b m t)
    && (found b m t false (decompose_lower (lower_char b m t) false)
        && found b m t true (decompose_lower (lower_char b m t) true))

check : Modifier → Tone → ℕ → Bool
unfolding good lower_char found decompose_lower apply_modifier apply_tone
check m t b = not (takes_modifier b m && takes_tone b t) || good m t b

unfoldable pub all_from : ℕ → ℕ → (ℕ → Bool) → Bool
all_from first zero p = true
all_from first (suc n) p = p first && all_from (suc first) n p

pub all_from_sound :
    (n first : ℕ) (p : ℕ → Bool) (x : ℕ)
    → all_from first n p ≡ true
    → first ≤ x
    → x < first + n
    → p x ≡ true
unfolding all_from
all_from_sound zero first p x h le lt = absurd (omega arith)
all_from_sound (suc n) first p x h le lt = ground (arith, all_from_sound n (suc first) p x)

-- Every base, modifier and tone, by evaluation.
table : (m : Modifier) (t : Tone) → all_from b'a' 26 (check m t) ≡ true
unfolding all_from check is_vowel_base
table no_mod no_tone = refl
table no_mod _ = refl
table circumflex no_tone = refl
table circumflex _ = refl
table breve no_tone = refl
table breve _ = refl
table horn no_tone = refl
table horn _ = refl
table stroke no_tone = refl
table stroke _ = refl

pub takes_modifier_range :
    (b : ℕ) (m : Modifier) → takes_modifier b m ≡ true → (b'a' ≤ b) × (b < 123)
takes_modifier_range b no_mod h = ground arith
takes_modifier_range b circumflex h = ground arith
takes_modifier_range b breve h = ground arith
takes_modifier_range b horn h = ground arith
takes_modifier_range b stroke h = ground arith

pub good_lem :
    (b : ℕ) (m : Modifier) (t : Tone)
    → (takes_modifier b m && takes_tone b t) ≡ true
    → good m t b ≡ true
unfolding check
good_lem b m t h =
    let at = all_from_sound 26 b'a' (check m t) b (table m t) in
    ground (arith, takes_modifier_range b m, at)

stroked_upper : (ct : Ctype) → to_upper_vietnamese ct 0x111 ≡ 0x110
unfolding to_upper_vietnamese
stroked_upper ct = refl

-- The composed character is the lower-case one, or its upper case.
pub compose-lower_char :
    (ct : Ctype) (s : CharState)
    → is_letter s ≡ true
    → compose ct s ≡ (
        if s.is_upper
        then to_upper_vietnamese ct (lower_char s.base s.mod_ s.tone)
        else lower_char s.base s.mod_ s.tone)
unfolding compose lower_char
compose-lower_char ct s h = ground (arith, takes_modifier_range s.base s.mod_, stroked_upper ct)

pub lower_char-is_lower :
    (b : ℕ) (m : Modifier) (t : Tone)
    → good m t b ≡ true
    → is_lower_letter (lower_char b m t) ≡ true
unfolding good
lower_char-is_lower b m t h = &&-left _ _ h

lower_char-found :
    (b : ℕ) (m : Modifier) (t : Tone) (u : Bool)
    → good m t b ≡ true
    → found b m t u (decompose_lower (lower_char b m t) u) ≡ true
unfolding good
lower_char-found b m t false h = &&-left _ _ (&&-right _ _ h)
lower_char-found b m t true h = &&-right _ _ (&&-right _ _ h)

pub decompose_lower-lower_char :
    (b : ℕ) (m : Modifier) (t : Tone) (u : Bool)
    → good m t b ≡ true
    → decompose_lower (lower_char b m t) u
      ≡ some
          (record { base = b; mod_idx = decomposed_mod m; tone_idx = tone_index t; is_upper = u })
decompose_lower-lower_char b m t u h = found_sound b m t u _ (lower_char-found b m t u h)

to_upper_vietnamese-nonzero :
    (ct : Ctype) (c : ℕ)
    → FollowsUnicode ct
    → is_lower_letter c ≡ true
    → (to_upper_vietnamese ct c == 0) ≡ false
unfolding to_upper_vietnamese
to_upper_vietnamese-nonzero ct c u l = ground (arith, u.upper_ascii c)

-- A letter composes to a character, and not to 0.
pub compose-nonzero :
    (ct : Ctype) (s : CharState)
    → FollowsUnicode ct
    → is_letter s ≡ true
    → (compose ct s == 0) ≡ false
compose-nonzero ct s u h =
    let c : ℕ = lower_char s.base s.mod_ s.tone in
    let l = lower_char-is_lower s.base s.mod_ s.tone (good_lem s.base s.mod_ s.tone h) in
    let up = to_upper_vietnamese-nonzero ct c u l in
    let low : (c == 0) ≡ false = ground arith in
    rw (compose-lower_char ct s h)
      (elim s.is_upper as (λ b. ((if b then to_upper_vietnamese ct c else c) == 0) ≡ false) [
        | true ↦ up
        | false ↦ low
      ])

-- `Compose` reads four fields of a state only.
pub compose-view :
    (ct : Ctype) (s : CharState) (synthetic : Bool) (raw_idx : ℕ) (tone_raw_idx : Option ℕ)
    → compose ct s
      ≡ compose ct
          (record s { synthetic = synthetic; raw_idx = raw_idx; tone_raw_idx = tone_raw_idx })
unfolding compose
compose-view ct s y r t = refl
