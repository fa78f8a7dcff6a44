-- ===== src/Decisions/SmartSwitchLaws.antt =====
-- Reading the table of application modes after it is written: src/core/SmartSwitchManager.cpp.
use nexus_key.Base.{
  ℕ, zero, suc, ◌+◌, ◌≤◌, ◌<◌, ◌≡◌, ◌≢◌, inl, inr, refl, ap, sym, ◌∙◌, Bool, true, false, not, ◌&&◌,
  ◌||◌, ◌==◌, ==_iff, ltb, if◌then◌else◌, none, some, is_some, Option-cases, Bool-cases, arith,
}
use nexus_key.Decisions.SmartSwitch.{
  max_entries, SmartSwitchEntry, SmartSwitchState, find_slot, slot_with, bit_of, write, set_mode,
  get_mode, rounds, next_epoch,
}

-- A slot that is found is in range and has the hash.
find_slot-found :
    (entries : ℕ → SmartSwitchEntry) (hash i n j : ℕ)
    → find_slot entries hash i n ≡ some j
    → (i ≤ j) × (j < i + n) × ((entries j).hash ≡ hash)
unfolding find_slot
find_slot-found entries hash i zero j e = ground arith
find_slot-found entries hash i (suc n) j e =
    let r = find_slot-found entries hash (suc i) n j in
    elim (Bool-cases ((entries i).hash == hash)) [
      | inl h ↦ ground (arith, h)
      | inr h ↦ ground (arith, r, h)
    ]

-- The search depends on the hashes of its slots only.
find_slot-same :
    (entries entries' : ℕ → SmartSwitchEntry) (hash i n : ℕ)
    → ((j : ℕ) → j < i + n → (entries j).hash ≡ (entries' j).hash)
    → find_slot entries hash i n ≡ find_slot entries' hash i n
unfolding find_slot
find_slot-same entries entries' hash i zero h = refl
find_slot-same entries entries' hash i (suc n) h =
    rw
      (h i (omega arith), find_slot-same entries entries' hash (suc i) n (λ j k. h j (omega arith)))
      refl

-- One slot more.
find_slot-more :
    (entries : ℕ → SmartSwitchEntry) (hash i n k : ℕ)
    → k ≡ i + n
    → find_slot entries hash i (suc n) ≡ elim (find_slot entries hash i n) [
      | some j ↦ some j
      | none ↦ if (entries k).hash == hash then some k else none
    ]
unfolding find_slot
find_slot-more entries hash i zero k e = let f : k ≡ i = omega (arith, e) in rw f refl
find_slot-more entries hash i (suc n) k e =
    let r = find_slot-more entries hash (suc i) n k (omega (arith, e)) in
    elim (Bool-cases ((entries i).hash == hash)) [ inl h ↦ rw h refl | inr h ↦ rw h r ]

write-same :
    (entries : ℕ → SmartSwitchEntry) (i v j : ℕ)
    → (write i (record (entries i) { vietnamese = v }) entries j).hash ≡ (entries j).hash
write-same entries i v j = elim (Bool-cases (i == j)) [
  | inl e ↦ rw e (ap (λ k. (entries k).hash) ((==_iff i j).0 e))
  | inr e ↦ rw e refl
]

-- A mode is read as it was written.
bit_of_lem : (v : Bool) → not (bit_of v == 0) ≡ v
bit_of_lem true = refl
bit_of_lem false = refl

-- The table with a slot rewritten, and with a slot more.
abbrev updated : SmartSwitchState → ℕ → Bool → SmartSwitchState
updated s i v = record s {
  entries = write i (record (s.entries i) { vietnamese = bit_of v }) s.entries;
  epoch = next_epoch s;
}

abbrev extended : SmartSwitchState → ℕ → Bool → SmartSwitchState
extended s hash v = record s {
  entries = write s.count (record { hash = hash; vietnamese = bit_of v }) s.entries;
  count = suc s.count;
  epoch = next_epoch s;
}

set_mode-updated :
    (s : SmartSwitchState) (a i : ℕ) (v : Bool)
    → slot_with s a ≡ some i
    → set_mode a v s ≡ updated s i v
unfolding set_mode
set_mode-updated s a i v e = rw (set_mode, e) refl

set_mode-extended :
    (s : SmartSwitchState) (a : ℕ) (v : Bool)
    → slot_with s a ≡ none
    → ltb s.count max_entries ≡ true
    → set_mode a v s ≡ extended s a v
unfolding set_mode
set_mode-extended s a v e h = rw (set_mode, e, h) refl

-- What is read of a slot that is written.
write_self :
    (entries : ℕ → SmartSwitchEntry) (i : ℕ) (e : SmartSwitchEntry) → write i e entries i ≡ e
write_self entries i e = rw ((==_iff i i).1 refl) refl

write_other :
    (entries : ℕ → SmartSwitchEntry) (i j : ℕ) (e : SmartSwitchEntry)
    → i ≢ j
    → write i e entries j ≡ entries j
write_other entries i j e n = elim (Bool-cases (i == j)) [
  | inl h ↦ absurd (n ((==_iff i j).0 h))
  | inr h ↦ rw h refl
]

get-updated :
    (s : SmartSwitchState) (a b i : ℕ) (v : Bool)
    → slot_with s a ≡ some i
    → get_mode b (updated s i v) ≡ (if a == b then some v else get_mode b s)
unfolding get_mode
get-updated s a b i v e =
    let entry = record (s.entries i) { vietnamese = bit_of v } in
    let same =
      find_slot-same (write i entry s.entries) s.entries b 0 (rounds s.count)
        (λ j h. write-same s.entries i (bit_of v) j) in
    let f = find_slot-found s.entries a 0 (rounds s.count) i e in
    rw (get_mode, same)
      (elim (Bool-cases (a == b)) [
        | inl q ↦
            let x : slot_with s b ≡ some i = sym (ap (slot_with s) ((==_iff a b).0 q)) ∙ e in
            rw (q, x, write_self s.entries i entry, bit_of_lem v) refl
        | inr q ↦ rw q (elim (Option-cases (slot_with s b)) [
          | inl o ↦ rw o refl
          | inr (j, o) ↦
              let g = find_slot-found s.entries b 0 (rounds s.count) j o in
              let n : i ≢ j =
                λ p. ground (arith, q, sym f.2 ∙ ap (λ k. (s.entries k).hash) p ∙ g.2) in
              rw (o, write_other s.entries i j entry n) refl
        ])
      ])

rounds-id : (c : ℕ) → c ≤ max_entries → rounds c ≡ c
unfolding rounds
rounds-id c h = ground arith

get-extended :
    (s : SmartSwitchState) (a b : ℕ) (v : Bool)
    → slot_with s a ≡ none
    → s.count < max_entries
    → get_mode b (extended s a v) ≡ (if a == b then some v else get_mode b s)
unfolding get_mode
get-extended s a b v e h =
    let c = s.count in
    let p = rounds-id (suc c) (omega (arith, h)) in
    let q = rounds-id c (omega (arith, h)) in
    let entry : SmartSwitchEntry = record { hash = a; vietnamese = bit_of v } in
    let entries = write c entry s.entries in
    let more = find_slot-more entries b 0 c c (omega arith) in
    let other = λ (j : ℕ) (k : j < c). write_other s.entries c j entry (λ x. omega (arith, k, x)) in
    let same =
      find_slot-same entries s.entries b 0 c
        (λ j k. ap (λ e. e.hash) (other j (omega (arith, k)))) in
    let e' : find_slot s.entries a 0 c ≡ none = ap (λ n. find_slot s.entries a 0 n) (sym q) ∙ e in
    let w = write_self s.entries c entry in
    rw (get_mode, p, q, more, same)
      (elim (Bool-cases (a == b)) [
        | inl x ↦
            let o : find_slot s.entries b 0 c ≡ none =
              sym (ap (λ k. find_slot s.entries k 0 c) ((==_iff a b).0 x)) ∙ e' in
            rw (o, w, x, w, bit_of_lem v) refl
        | inr x ↦ elim (Option-cases (find_slot s.entries b 0 c)) [
          | inl o ↦ rw (o, w, x) refl
          | inr (j, o) ↦
              let g = find_slot-found s.entries b 0 c j o in
              rw (o, x, other j (omega (arith, g))) refl
        ]
      ])

set_mode-full :
    (s : SmartSwitchState) (a : ℕ) (v : Bool)
    → slot_with s a ≡ none
    → ltb s.count max_entries ≡ false
    → set_mode a v s ≡ s
unfolding set_mode
set_mode-full s a v e h = rw (set_mode, e, h) refl

and-true : (b : Bool) → (b && true) ≡ b
and-true b = ground arith

and-false : (b : Bool) → (b && false) ≡ false
and-false b = ground arith

-- A mode is stored: its name has a slot, or there is room for one.
abbrev pub is_stored : SmartSwitchState → ℕ → Bool
is_stored s hash = is_some (slot_with s hash) || ltb s.count max_entries

-- After `SetAppMode` in any table, `GetAppMode` of a name gives the mode that was set if the hash of
-- the name is that of the name that was set and this one had a slot or the table room for one, and
-- else what it gave before.
pub get_mode-set_mode :
    (s : SmartSwitchState) (a b : ℕ) (v : Bool)
    → get_mode b (set_mode a v s) ≡ (if a == b && is_stored s a then some v else get_mode b s)
get_mode-set_mode s a b v = elim (Option-cases (slot_with s a)) [
  | inr (i, e) ↦
      rw (set_mode-updated s a i v e, e)
        (get-updated s a b i v e
          ∙ ap (λ t. if t then some v else get_mode b s) (sym (and-true (a == b))))
  | inl e ↦ elim (Bool-cases (ltb s.count max_entries)) [
    | inl h ↦
        rw (set_mode-extended s a v e h, e, h)
          (get-extended s a b v e (ground arith)
            ∙ ap (λ t. if t then some v else get_mode b s) (sym (and-true (a == b))))
    | inr h ↦ rw (set_mode-full s a v e h, e, h, and-false (a == b)) refl
  ]
]
