-- ===== src/Phonology/Parsing.antt =====
-- `Parse` on rendered text: the scans by index against the one parse that a text has.
use nexus_key.Base.{
  ℕ, suc, ◌+◌, ◌-◌, ◌≤◌, ◌≡◌, ◌∙◌, ◌⊎◌, refl, sym, ap, subst, true, false, ◌==◌, ==_iff, Option,
  none, some, [], ◌∷◌, ◌++◌, Wstring, length, take, drop, all, inl, inr, Bool-cases, arith,
}
use nexus_key.Phonology.Lexicon.{is_vowel_char}
use nexus_key.Phonology.Syllable.{
  ParsedSyllable, first_vowel, last_vowel, coda_len, parse_from, parse,
}
use nexus_key.Phonology.Scans.{
  is_consonant_char, begins, run, take-drop, all-run, begins-run, first_vowel-run, plus, plus_lem,
  coda_len-CodaOf, vowel_at-run, drop-drop, run-vowel, begins-vowel, if_true, if_false,
  last_vowel-from,
}

-- The parse of a text: the longest onset of consonants, the longest run of vowels after it, the longest run
-- of at most two consonants after that, and the rest. No two parses of a text differ in their parts.
pub record IsParseOf (text : Wstring) (p : ParsedSyllable) : Type 0 where
  pub whole : p.onset ++ (p.vowels ++ (p.coda ++ p.leftover)) ≡ text
  pub onset_consonants : all is_consonant_char p.onset ≡ true
  pub onset_longest : begins is_consonant_char (p.vowels ++ (p.coda ++ p.leftover)) ≡ false
  pub vowels_only : all is_vowel_char p.vowels ≡ true
  pub vowels_longest : begins is_vowel_char (p.coda ++ p.leftover) ≡ false
  pub coda_consonants : all is_consonant_char p.coda ≡ true
  pub coda_short : length p.coda ≤ 2
  pub coda_longest : (length p.coda ≡ 2) ⊎ (begins is_consonant_char p.leftover ≡ false)
  pub flag : p.has_vowel ≡ begins is_vowel_char p.vowels

-- The syllable of an onset, a number of vowels and the text after them.
abbrev split : Wstring → ℕ → ℕ → Wstring → ParsedSyllable
split text n vowels rest = record {
  onset = take n text;
  vowels = take vowels (drop n text);
  coda = take (coda_len 2 0 rest) rest;
  leftover = drop (coda_len 2 0 rest) rest;
  has_vowel = true;
}

parse_from-last :
    (text : Wstring) (n last : ℕ)
    → last_vowel (length text - n) n n text ≡ last
    → parse_from text n ≡ split text n (last - n + 1) (drop (last + 1) text)
unfolding parse_from
parse_from-last text n last e = ap (λ l. split text n (l - n + 1) (drop (l + 1) text)) e

parse_from-split :
    (text : Wstring) (n k : ℕ)
    → last_vowel (length text - n) n n text ≡ plus n k
    → parse_from text n ≡ split text n (suc k) (drop (suc k) (drop n text))
parse_from-split text n k e =
    let count : plus n k - n + 1 ≡ suc k = omega (arith, plus_lem n k) in
    let end : plus n k + 1 ≡ plus n (suc k) = omega (arith, plus_lem n k, plus_lem n (suc k)) in
    parse_from-last text n (plus n k) e
    ∙ ap (λ c. split text n c (drop (plus n k + 1) text)) count
    ∙ ap (λ i. split text n (suc k) (drop i text)) end
    ∙ ap (split text n (suc k)) (drop-drop n (suc k) text)

-- A text with a vowel.
split-IsParseOf :
    (text : Wstring) (v : ℕ) (vs : Wstring)
    → let n = run is_consonant_char text in
      let k = run is_vowel_char vs in
      drop n text ≡ v ∷ vs
      → is_vowel_char v ≡ true
      → IsParseOf text (split text n (suc k) (drop (suc k) (drop n text)))
split-IsParseOf text v vs e u =
    let n = run is_consonant_char text in
    let tail = drop n text in
    let q : run is_vowel_char tail ≡ suc (run is_vowel_char vs) =
      ap (run is_vowel_char) e ∙ run-vowel v vs u in
    subst (λ m. IsParseOf text (split text n m (drop m tail))) q
      (let m = run is_vowel_char tail in
        let rest = drop m tail in
        let c = coda_len 2 0 rest in
        let coda = coda_len-CodaOf rest in
        let after : take m tail ++ (take c rest ++ drop c rest) ≡ tail =
          ap (λ l. take m tail ++ l) (take-drop c rest) ∙ take-drop m tail in
        record {
          whole = ap (λ l. take n text ++ l) after ∙ take-drop n text;
          onset_consonants = all-run is_consonant_char text;
          onset_longest = ap (begins is_consonant_char) after ∙ begins-run is_consonant_char text;
          vowels_only = all-run is_vowel_char tail;
          vowels_longest =
              ap (begins is_vowel_char) (take-drop c rest) ∙ begins-run is_vowel_char tail;
          coda_consonants = coda.0;
          coda_short = coda.1;
          coda_longest = coda.2;
          flag = sym (
              ap (λ l. begins is_vowel_char (take (run is_vowel_char l) l)) e
              ∙ begins-vowel v vs u);
        })

append_nil : (cs : Wstring) → cs ++ [] ≡ cs
append_nil [] = refl
append_nil (c ∷ cs) = ap (λ l. c ∷ l) (append_nil cs)

take-length : (cs : Wstring) → take (length cs) cs ≡ cs
take-length [] = refl
take-length (c ∷ cs) = ap (λ l. c ∷ l) (take-length cs)

-- A text without vowels.
all_onset-IsParseOf :
    (text : Wstring)
    → run is_consonant_char text ≡ length text
    → IsParseOf text
        (record { onset = text; vowels = []; coda = []; leftover = []; has_vowel = false })
all_onset-IsParseOf text e = record {
  whole = append_nil text;
  onset_consonants =
      ap (all is_consonant_char) (sym (ap (λ n. take n text) e ∙ take-length text))
      ∙ all-run is_consonant_char text;
  onset_longest = refl;
  vowels_only = refl;
  vowels_longest = refl;
  coda_consonants = refl;
  coda_short = omega arith;
  coda_longest = inr refl;
  flag = refl;
}

parsed : Wstring → Option ℕ → ParsedSyllable
parsed text first = elim first [
  | none ↦ record { onset = text; vowels = []; coda = []; leftover = []; has_vowel = false }
  | some n ↦ parse_from text n
]

parse-parsed : (text : Wstring) → parse text ≡ parsed text (first_vowel (length text) 0 text)
unfolding parse parsed
parse-parsed text = refl

parse-none :
    (text : Wstring)
    → first_vowel (length text) 0 text ≡ none
    → parse text ≡ record { onset = text; vowels = []; coda = []; leftover = []; has_vowel = false }
unfolding parsed
parse-none text e = parse-parsed text ∙ ap (parsed text) e

parse-some :
    (text : Wstring) (n : ℕ)
    → first_vowel (length text) 0 text ≡ some n
    → parse text ≡ parse_from text n
unfolding parsed
parse-some text n e = parse-parsed text ∙ ap (parsed text) e

-- `Parse` gives the parse of every text: the longest onset of consonants, the longest run of vowels after
-- it, the longest run of at most two consonants after that, and what is left over.
pub parse-IsParseOf : (text : Wstring) → IsParseOf text (parse text)
parse-IsParseOf text =
    let n = run is_consonant_char text in
    let first = first_vowel-run text in
    elim (Bool-cases (n == length text)) [
      | inl h ↦
          subst (IsParseOf text) (sym (parse-none text (first ∙ if_true n h)))
            (all_onset-IsParseOf text ((==_iff n (length text)).0 h))
      | inr h ↦
          let (v, vs, e, u, l) = vowel_at-run text h in
          let last = last_vowel-from n v vs text (omega (arith, l)) e u in
          let parts =
            parse-some text n (first ∙ if_false n h)
            ∙ parse_from-split text n (run is_vowel_char vs) last in
          subst (IsParseOf text) (sym parts) (split-IsParseOf text v vs e u)
    ]
