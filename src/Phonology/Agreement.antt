-- ===== src/Phonology/Agreement.antt =====
-- `kVCPairRules` and `kVowelTable` agree.
use nexus_key.Base.{
  ℕ, ◌≡◌, ◌≢◌, ◌↔◌, refl, Bool, true, false, not, ◌||◌, ◌==◌, Option, none, some, List, [], ◌∷◌,
  all, &&-left, &&-right, Bool-cases, inl, inr, subst, arith,
}
use nexus_key.Phonology.Keys.{
  vowel_slot, key1, key2, key3, vc_pair_rules, find_finals, get_allowed_finals,
}
use nexus_key.Phonology.VowelTable.{vowel_table, find_entry, find_vowel}

-- An entry of the table that a final consonant may follow.
abbrev pub can_end : Option Bool → Bool
can_end none = false
can_end (some b) = b

rules_can_end : all (λ r. can_end (find_vowel r.0)) vc_pair_rules ≡ true
unfolding find_vowel find_entry vowel_table vc_pair_rules vowel_slot key1 key2 key3
rules_can_end = refl

entries_have_rules : all (λ r. not (r.1) || not (get_allowed_finals r.0 == 0)) vowel_table ≡ true
unfolding find_finals get_allowed_finals vowel_table vc_pair_rules vowel_slot key1 key2 key3
entries_have_rules = refl

find_finals-can_end :
    (key : ℕ) (rules : List (ℕ × ℕ))
    → all (λ r. can_end (find_vowel r.0)) rules ≡ true
    → find_finals key rules ≢ 0
    → can_end (find_vowel key) ≡ true
unfolding find_finals
find_finals-can_end key [] h n = absurd (n refl)
find_finals-can_end key ((k, finals) ∷ rules) h n = elim (Bool-cases (k == key)) [
  | inl e ↦
      (let e' : k ≡ key = ground arith in
        subst (λ x. can_end (find_vowel x) ≡ true) e' (&&-left _ _ h))
  | inr e ↦ find_finals-can_end key rules (&&-right _ _ h) (λ z. n (rw e z))
]

find_entry-has_rule :
    (key : ℕ) (entries : List (ℕ × Bool))
    → all (λ r. not r.1 || not (get_allowed_finals r.0 == 0)) entries ≡ true
    → can_end (find_entry key entries) ≡ true
    → (get_allowed_finals key == 0) ≡ false
unfolding find_entry
find_entry-has_rule key [] h c = ground arith
find_entry-has_rule key ((k, b) ∷ entries) h c = elim (Bool-cases (k == key)) [
  | inl e ↦
      (let e' : k ≡ key = ground arith in
        let head : (not b || not (get_allowed_finals k == 0)) ≡ true = &&-left _ _ h in
        let here : (get_allowed_finals k == 0) ≡ false = ground arith in
        subst (λ x. (get_allowed_finals x == 0) ≡ false) e' here)
  | inr e ↦
      (let tail : can_end (find_entry key entries) ≡ true = ground arith in
        find_entry-has_rule key entries (&&-right _ _ h) tail)
]

-- For every key, `kVowelTable` has it as a nucleus that a final consonant may follow exactly if
-- `GetAllowedFinals` allows some final after it.
pub find_vowel-get_allowed_finals :
    (key : ℕ) → (can_end (find_vowel key) ≡ true) ↔ (get_allowed_finals key ≢ 0)
unfolding find_vowel get_allowed_finals
find_vowel-get_allowed_finals key = (
  λ c. let z = find_entry-has_rule key vowel_table entries_have_rules c in λ e. ground arith,
  λ n. find_finals-can_end key vc_pair_rules rules_can_end n,
)
