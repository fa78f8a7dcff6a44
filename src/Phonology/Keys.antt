-- ===== src/Phonology/Keys.antt =====
-- The packed vowel keys and the rule table of src/core/engine/VietnamesePhonologyData.h. The bits
-- that a key or a mask joins are apart, so `|` is written as a sum.
use nexus_key.Base.{ℕ, ◌+◌, ◌-◌, ◌*◌, ◌%◌, ◌^◌, Bool, ◌||◌, ◌==◌, if◌then◌else◌, List, [], ◌∷◌}

unfoldable pub is_front_base_vowel : ℕ → Bool
is_front_base_vowel base = base == b'e' || base == b'i' || base == b'y'

abbrev pub k_a : ℕ
k_a = 0

abbrev pub k_e : ℕ
k_e = 1

abbrev pub k_i : ℕ
k_i = 2

abbrev pub k_o : ℕ
k_o = 3

abbrev pub k_u : ℕ
k_u = 4

abbrev pub k_y : ℕ
k_y = 5

abbrev pub k_none : ℕ
k_none = 0

abbrev pub k_circ : ℕ
k_circ = 1

abbrev pub k_brev : ℕ
k_brev = 2

abbrev pub k_horn : ℕ
k_horn = 3

abbrev pub k_invalid_base_index : ℕ
k_invalid_base_index = 0xFF

-- `static_cast<uint8_t>((base << 2) | mod)`.
unfoldable pub vowel_slot : ℕ → ℕ → ℕ
vowel_slot base m = (base * 4 + m) % 256

unfoldable pub base_index : ℕ → ℕ
base_index base =
    if base == b'a'
    then k_a
    else if base == b'e'
    then k_e
    else if base == b'i'
    then k_i
    else if base == b'o'
    then k_o
    else if base == b'u'
    then k_u
    else if base == b'y'
    then k_y
    else k_invalid_base_index

unfoldable pub key1 : ℕ → ℕ
key1 s0 = 2 ^ 24 + s0

unfoldable pub key2 : ℕ → ℕ → ℕ
key2 s0 s1 = 2 * 2 ^ 24 + s0 * 2 ^ 8 + s1

unfoldable pub key3 : ℕ → ℕ → ℕ → ℕ
key3 s0 s1 s2 = 3 * 2 ^ 24 + s0 * 2 ^ 16 + s1 * 2 ^ 8 + s2

abbrev pub f_c : ℕ
f_c = 0x1

abbrev pub f_ch : ℕ
f_ch = 0x2

abbrev pub f_k : ℕ
f_k = 0x4

abbrev pub f_m : ℕ
f_m = 0x8

abbrev pub f_n : ℕ
f_n = 0x10

abbrev pub f_ng : ℕ
f_ng = 0x20

abbrev pub f_nh : ℕ
f_nh = 0x40

abbrev pub f_p : ℕ
f_p = 0x80

abbrev pub f_t : ℕ
f_t = 0x100

abbrev pub f_all : ℕ
f_all = f_c + f_ch + f_k + f_m + f_n + f_ng + f_nh + f_p + f_t

-- `F_ALL & ~(F_ch | F_nh)`.
abbrev pub f_no_ch_nh : ℕ
f_no_ch_nh = f_all - (f_ch + f_nh)

-- `kVCPairRules`: a vowel nucleus and the codas that may follow it.
unfoldable pub vc_pair_rules : List (ℕ × ℕ)
unfolding vowel_slot key1 key2 key3
vc_pair_rules =
    (key1 (vowel_slot k_a k_none), f_all)
    ∷ (key1 (vowel_slot k_a k_circ), f_no_ch_nh)
    ∷ (key1 (vowel_slot k_a k_brev), f_no_ch_nh)
    ∷ (key1 (vowel_slot k_e k_none), f_all)
    ∷ (key1 (vowel_slot k_e k_circ), f_c + f_ch + f_m + f_n + f_nh + f_p + f_t)
    ∷ (key1 (vowel_slot k_i k_none), f_all - f_ng)
    ∷ (key1 (vowel_slot k_o k_none), f_no_ch_nh)
    ∷ (key1 (vowel_slot k_o k_circ), f_no_ch_nh)
    ∷ (key1 (vowel_slot k_o k_horn), f_m + f_n + f_p + f_t)
    ∷ (key1 (vowel_slot k_u k_none), f_no_ch_nh)
    ∷ (key1 (vowel_slot k_u k_horn), f_no_ch_nh)
    ∷ (key1 (vowel_slot k_y k_none), f_t)
    ∷ (key2 (vowel_slot k_i k_none) (vowel_slot k_e k_circ), f_c + f_m + f_n + f_ng + f_p + f_t)
    ∷ (key2 (vowel_slot k_o k_none) (vowel_slot k_a k_none), f_all)
    ∷ (key2 (vowel_slot k_o k_none) (vowel_slot k_a k_brev), f_c + f_n + f_ng + f_t)
    ∷ (key2 (vowel_slot k_o k_none) (vowel_slot k_e k_none), f_m + f_n + f_ng + f_t)
    ∷ (key2 (vowel_slot k_o k_none) (vowel_slot k_o k_none), f_c + f_ng)
    ∷ (key2 (vowel_slot k_u k_none) (vowel_slot k_a k_circ), f_n + f_ng + f_t)
    ∷ (key2 (vowel_slot k_u k_none) (vowel_slot k_e k_circ), f_ch + f_n + f_nh)
    ∷ (key2 (vowel_slot k_u k_none) (vowel_slot k_o k_circ), f_c + f_m + f_n + f_ng + f_p + f_t)
    ∷ (key2 (vowel_slot k_u k_none) (vowel_slot k_o k_horn), f_c + f_m + f_n + f_ng + f_p + f_t)
    ∷ (key2 (vowel_slot k_u k_none) (vowel_slot k_y k_none), f_ch + f_n + f_nh + f_t)
    ∷ (key2 (vowel_slot k_u k_horn) (vowel_slot k_o k_horn), f_c + f_m + f_n + f_ng + f_p + f_t)
    ∷ (key2 (vowel_slot k_y k_none) (vowel_slot k_e k_circ), f_c + f_m + f_n + f_ng + f_p + f_t)
    ∷ (key3 (vowel_slot k_u k_none) (vowel_slot k_y k_none) (vowel_slot k_e k_circ), f_n + f_t)
    ∷ []

unfoldable pub find_finals : ℕ → List (ℕ × ℕ) → ℕ
find_finals key [] = 0
find_finals key ((k, finals) ∷ rules) = if k == key then finals else find_finals key rules

unfoldable pub get_allowed_finals : ℕ → ℕ
unfolding find_finals vc_pair_rules
get_allowed_finals key = find_finals key vc_pair_rules
