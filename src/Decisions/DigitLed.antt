-- ===== src/Decisions/DigitLed.antt =====
-- Words that begin with a digit: src/core/DigitLedWordDecision.h, and the lock of an application's
-- mode, src/core/PerAppModeDecision.h.
use nexus_key.Base.{
  ℕ, ◌≡◌, refl, Bool, true, false, not, ◌&&◌, ◌||◌, ◌==◌, ltb, leb, if◌then◌else◌, List, [], ◌∷◌,
  all, arith,
}
use nexus_key.Config.{InputMethod, telex, simple_telex}

pub data DigitLedDecision : Type 0 where
  continue arm bypass reset : DigitLedDecision

pub record DigitLedInputs : Type 0 where
  pub vk_code : ℕ
  pub shift : Bool
  pub engine_empty : Bool
  pub method : InputMethod
  pub currently_armed : Bool

unfoldable pub is_digit_led_boundary : ℕ → Bool
is_digit_led_boundary vk =
    if vk == 0x20 || vk == 0x0D || vk == 0x09 || vk == 0x1B
    then true
    else if vk == 0x08 || vk == 0x2E
    then true
    else if leb 0x25 vk && leb vk 0x28
    then true
    else vk == 0x24 || vk == 0x23 || vk == 0x21 || vk == 0x22

-- `method != VNI && method != Combined && method != UserDefined`, negated.
abbrev pub has_digit_keys : InputMethod → Bool
has_digit_keys telex = false
has_digit_keys simple_telex = false
has_digit_keys _ = true

unfoldable pub decide_digit_led : DigitLedInputs → DigitLedDecision
decide_digit_led i =
    if i.currently_armed
    then (if is_digit_led_boundary i.vk_code then reset else bypass)
    else if i.shift
    then continue
    else if not i.engine_empty
    then continue
    else if ltb i.vk_code 0x30 || ltb 0x39 i.vk_code
    then continue
    else if not (has_digit_keys i.method)
    then continue
    else arm

-- The flag of the caller after a decision.
abbrev pub armed_after : DigitLedDecision → Bool → Bool
armed_after arm armed = true
armed_after reset armed = false
armed_after _ armed = armed

-- A key with all but the flag.
pub record Key : Type 0 where
  pub vk_code : ℕ
  pub shift : Bool
  pub engine_empty : Bool
  pub method : InputMethod

abbrev pub inputs : Key → Bool → DigitLedInputs
inputs k armed = record {
  vk_code = k.vk_code;
  shift = k.shift;
  engine_empty = k.engine_empty;
  method = k.method;
  currently_armed = armed;
}

-- The flag after a run of keys.
abbrev pub armed_by : Bool → List Key → Bool
armed_by armed [] = armed
armed_by armed (k ∷ keys) = armed_by (armed_after (decide_digit_led (inputs k armed)) armed) keys

abbrev pub is_bypassed : DigitLedDecision → Bool
is_bypassed bypass = true
is_bypassed _ = false

decide-inside :
    (k : Key) → is_digit_led_boundary k.vk_code ≡ false → decide_digit_led (inputs k true) ≡ bypass
unfolding decide_digit_led
decide-inside k h = rw h refl

armed_by-inside :
    (word : List Key)
    → all (λ k. not (is_digit_led_boundary k.vk_code)) word ≡ true
    → armed_by true word ≡ true
armed_by-inside [] h = refl
armed_by-inside (k ∷ word) h =
    let r = armed_by-inside word in rw (decide-inside k (ground arith)) (r (ground arith))

decide-boundary :
    (k : Key) → is_digit_led_boundary k.vk_code ≡ true → decide_digit_led (inputs k true) ≡ reset
unfolding decide_digit_led
decide-boundary k h = rw h refl

-- The first key of a word arms the flag if no Shift is held, nothing is composed and it is a digit of
-- a method that has digit keys. Then every later key up to a boundary is passed through, whatever
-- Shift, the engine and the method are by then, and a boundary ends the word: the flag is clear.
pub armed-word :
    (first boundary key : Key) (word : List Key)
    → decide_digit_led (inputs first false) ≡ arm
    → all (λ k. not (is_digit_led_boundary k.vk_code)) word ≡ true
    → is_digit_led_boundary key.vk_code ≡ false
    → is_digit_led_boundary boundary.vk_code ≡ true
    → (armed_by false (first ∷ word) ≡ true)
      × (decide_digit_led (inputs key (armed_by false (first ∷ word))) ≡ bypass)
      × (armed_after (decide_digit_led (inputs boundary (armed_by false (first ∷ word)))) true
          ≡ false)
armed-word first boundary key word a w k b =
    rw (a, armed_by-inside word w) (refl, decide-inside key k, rw (decide-boundary boundary b) refl)

pub data PerAppMode : Type 0 where
  unlocked force_english force_vietnamese : PerAppMode

unfoldable pub decide_per_app_mode : Bool → Bool → PerAppMode
decide_per_app_mode in_excluded_set in_forced_vietnamese_set =
    if in_excluded_set
    then force_english
    else if in_forced_vietnamese_set
    then force_vietnamese
    else unlocked
