-- ===== src/Letters/Case.antt =====
-- `ToUpperVietnamese` and `ToLowerVietnamese`. The C library's `towlower`, `towupper` and
-- `iswupper` are parameters; `ch & 1` is `ch % 2`.
use nexus_key.Base.{ℕ, ◌+◌, ◌-◌, ◌%◌, ◌≤◌, ◌≡◌, Bool, true, ◌&&◌, ◌||◌, ◌==◌, leb, if◌then◌else◌}

-- The functions of <cwctype> that the engine calls.
pub record Ctype : Type 0 where
  pub towlower : ℕ → ℕ
  pub towupper : ℕ → ℕ
  pub iswupper : ℕ → Bool

abbrev pub between : ℕ → ℕ → ℕ → Bool
between first last ch = leb first ch && leb ch last

unfoldable pub to_upper_vietnamese : Ctype → ℕ → ℕ
to_upper_vietnamese ct ch =
    if between 0xE0 0xF6 ch
    then ch - 0x20
    else if between 0xF8 0xFE ch
    then ch - 0x20
    else if ch == 0x103
    then 0x102
    else if ch == 0x111
    then 0x110
    else if ch == 0x129
    then 0x128
    else if ch == 0x169
    then 0x168
    else if ch == 0x1A1
    then 0x1A0
    else if ch == 0x1B0
    then 0x1AF
    else if between 0x1EA0 0x1EF9 ch
    then (if ch % 2 == 1 then ch - 1 else ch)
    else ct.towupper ch

unfoldable pub to_lower_vietnamese : Ctype → ℕ → ℕ
to_lower_vietnamese ct ch =
    if between 0xC0 0xD6 ch
    then ch + 0x20
    else if between 0xD8 0xDE ch
    then ch + 0x20
    else if ch == 0x102
    then 0x103
    else if ch == 0x110
    then 0x111
    else if ch == 0x1A0
    then 0x1A1
    else if ch == 0x1AF
    then 0x1B0
    else if between 0x1EA0 0x1EF9 ch && ch % 2 == 0
    then ch + 1
    else ct.towlower ch

-- The lower-case letters that the engine works with: a to z, and the Vietnamese letters in their
-- Unicode blocks.
abbrev pub is_lower_letter : ℕ → Bool
is_lower_letter c =
    between b'a' b'z' c
    || between 0xE0 0xF6 c
    || between 0xF8 0xFE c
    || c == 0x103
    || c == 0x111
    || c == 0x129
    || c == 0x169
    || c == 0x1A1
    || c == 0x1B0
    || between 0x1EA0 0x1EF9 c && c % 2 == 1

-- The case mapping of the C library on ASCII, and on lower-case letters, which `towlower` leaves.
pub record FollowsAscii (ct : Ctype) : Type 0 where
  pub lower_ascii : (c : ℕ) → b'A' ≤ c → c ≤ b'Z' → ct.towlower c ≡ c + 0x20
  pub upper_ascii : (c : ℕ) → b'a' ≤ c → c ≤ b'z' → ct.towupper c ≡ c - 0x20
  pub lower_fixed : (c : ℕ) → is_lower_letter c ≡ true → ct.towlower c ≡ c

-- The small i and u with a tilde, whose capitals `ToLowerVietnamese` leaves to `towlower`.
abbrev pub is_tilde : ℕ → Bool
is_tilde c = c == 0x129 || c == 0x169

-- What the engine relies on: the simple case mapping of Unicode on ASCII, on lower-case letters
-- (`towlower` leaves them) and on the two letters that `ToLowerVietnamese` leaves to `towlower`.
pub record FollowsUnicode (ct : Ctype) : Type 0 where
  pub lower_ascii : (c : ℕ) → b'A' ≤ c → c ≤ b'Z' → ct.towlower c ≡ c + 0x20
  pub upper_ascii : (c : ℕ) → b'a' ≤ c → c ≤ b'z' → ct.towupper c ≡ c - 0x20
  pub lower_fixed : (c : ℕ) → is_lower_letter c ≡ true → ct.towlower c ≡ c
  pub lower_i_tilde : ct.towlower 0x128 ≡ 0x129
  pub lower_u_tilde : ct.towlower 0x168 ≡ 0x169
