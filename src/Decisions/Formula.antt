-- ===== src/Decisions/Formula.antt =====
-- The segments of a spreadsheet: src/core/FormulaSegmentDecision.h.
use nexus_key.Base.{
  ◌≡◌, ◌↔◌, ◌⊎◌, refl, ap, inl, inr, Bool-cases, Bool, true, false, not, if◌then◌else◌, List, [],
  ◌∷◌, ◌++◌, all, arith,
}

pub record FormulaSegmentState : Type 0 where
  pub at_segment_start : Bool
  pub in_formula : Bool

pub data FormulaKeyKind : Type 0 where
  boundary navigate passive equals_start other_content : FormulaKeyKind

abbrev pub segment : Bool → Bool → FormulaSegmentState
segment at_start formula = record { at_segment_start = at_start; in_formula = formula }

unfoldable pub next_formula_segment_state :
    FormulaSegmentState → FormulaKeyKind → FormulaSegmentState
next_formula_segment_state s boundary = segment true false
next_formula_segment_state s navigate =
    if s.in_formula then segment false true else segment true false
next_formula_segment_state s passive = s
next_formula_segment_state s equals_start =
    if s.at_segment_start then segment false true else segment false s.in_formula
next_formula_segment_state s other_content =
    if s.at_segment_start then segment false false else segment false s.in_formula

-- The state after keys, the last one first, from the initial state.
abbrev pub after : List FormulaKeyKind → FormulaSegmentState
after [] = segment true false
after (k ∷ keys) = next_formula_segment_state (after keys) k

abbrev pub is_boundary : FormulaKeyKind → Bool
is_boundary boundary = true
is_boundary _ = false

abbrev pub is_passive : FormulaKeyKind → Bool
is_passive passive = true
is_passive _ = false

-- Before any key, and after a boundary or a key of navigation.
abbrev pub is_fresh : List FormulaKeyKind → Bool
is_fresh [] = true
is_fresh (boundary ∷ keys) = true
is_fresh (navigate ∷ keys) = true
is_fresh _ = false

-- An equals sign, before which there was nothing, a boundary or a key of navigation, passive keys aside,
-- and after which there was no boundary.
pub record OpenedByEquals (keys : List FormulaKeyKind) : Type 0 where
  pub later : List FormulaKeyKind
  pub passives : List FormulaKeyKind
  pub earlier : List FormulaKeyKind
  pub parts : keys ≡ later ++ equals_start ∷ (passives ++ earlier)
  pub same_segment : all (λ k. not (is_boundary k)) later ≡ true
  pub only_passive : all is_passive passives ≡ true
  pub fresh : is_fresh earlier ≡ true

-- At the start of a segment, or in a formula.
abbrev IsOpen : FormulaSegmentState → Type 0
IsOpen s = (s.at_segment_start ≡ true) ⊎ (s.in_formula ≡ true)

fresh-IsOpen : (keys : List FormulaKeyKind) → is_fresh keys ≡ true → IsOpen (after keys)
unfolding next_formula_segment_state
fresh-IsOpen [] h = inl refl
fresh-IsOpen (boundary ∷ keys) h = inl refl
fresh-IsOpen (navigate ∷ keys) h = elim (Bool-cases (after keys).in_formula) [
  | inl f ↦ inr (rw f refl)
  | inr f ↦ inl (rw f refl)
]
fresh-IsOpen (passive ∷ keys) h = ground arith
fresh-IsOpen (equals_start ∷ keys) h = ground arith
fresh-IsOpen (other_content ∷ keys) h = ground arith

passives-IsOpen :
    (ps keys : List FormulaKeyKind)
    → all is_passive ps ≡ true
    → is_fresh keys ≡ true
    → IsOpen (after (ps ++ keys))
unfolding next_formula_segment_state
passives-IsOpen [] keys p h = fresh-IsOpen keys h
passives-IsOpen (passive ∷ ps) keys p h = passives-IsOpen ps keys p h
passives-IsOpen (boundary ∷ ps) keys p h = ground arith
passives-IsOpen (navigate ∷ ps) keys p h = ground arith
passives-IsOpen (equals_start ∷ ps) keys p h = ground arith
passives-IsOpen (other_content ∷ ps) keys p h = ground arith

abbrev InFormula : FormulaSegmentState → Type 0
InFormula s = (s.in_formula ≡ true) × (s.at_segment_start ≡ false)

next-InFormula :
    (s : FormulaSegmentState) (k : FormulaKeyKind)
    → InFormula s
    → is_boundary k ≡ false
    → InFormula (next_formula_segment_state s k)
unfolding next_formula_segment_state
next-InFormula s boundary h b = ground arith
next-InFormula s navigate h b = ground arith
next-InFormula s passive h b = h
next-InFormula s equals_start h b = ground arith
next-InFormula s other_content h b = ground arith

equals-InFormula :
    (s : FormulaSegmentState) → IsOpen s → InFormula (next_formula_segment_state s equals_start)
unfolding next_formula_segment_state
equals-InFormula s (inl h) = ground arith
equals-InFormula s (inr h) = ground arith

stays-InFormula :
    (later earlier : List FormulaKeyKind)
    → InFormula (after earlier)
    → all (λ k. not (is_boundary k)) later ≡ true
    → InFormula (after (later ++ earlier))
stays-InFormula [] earlier h k = h
stays-InFormula (l ∷ later) earlier h k =
    next-InFormula (after (later ++ earlier)) l (stays-InFormula later earlier h (ground arith))
      (ground arith)

opened-InFormula : (keys : List FormulaKeyKind) → OpenedByEquals keys → InFormula (after keys)
opened-InFormula keys o =
    let tail : List FormulaKeyKind = o.passives ++ o.earlier in
    let open_ = passives-IsOpen o.passives o.earlier o.only_passive o.fresh in
    let here = equals-InFormula (after tail) open_ in
    rw o.parts (stays-InFormula o.later (equals_start ∷ tail) here o.same_segment)

-- The keys before the start of a segment.
abbrev IsStart : List FormulaKeyKind → Type 0
IsStart keys =
    (ps : List FormulaKeyKind) × (es : List FormulaKeyKind) × (keys ≡ ps ++ es)
    × (all is_passive ps ≡ true)
    × (is_fresh es ≡ true)

start : (keys : List FormulaKeyKind) → (after keys).at_segment_start ≡ true → IsStart keys
unfolding next_formula_segment_state
start [] h = ([], [], refl, refl, refl)
start (boundary ∷ keys) h = ([], boundary ∷ keys, refl, refl, refl)
start (navigate ∷ keys) h = ([], navigate ∷ keys, refl, refl, refl)
start (passive ∷ keys) h =
    let (ps, es, e, p, f) = start keys h in (passive ∷ ps, es, ap (λ t. passive ∷ t) e, p, f)
start (equals_start ∷ keys) h = ground arith
start (other_content ∷ keys) h = ground arith

later-key :
    (k : FormulaKeyKind) (keys : List FormulaKeyKind)
    → is_boundary k ≡ false
    → OpenedByEquals keys
    → OpenedByEquals (k ∷ keys)
later-key k keys b o = record {
  later = k ∷ o.later;
  passives = o.passives;
  earlier = o.earlier;
  parts = ap (λ t. k ∷ t) o.parts;
  same_segment = let s = o.same_segment in ground arith;
  only_passive = o.only_passive;
  fresh = o.fresh;
}

first-equals : (keys : List FormulaKeyKind) → IsStart keys → OpenedByEquals (equals_start ∷ keys)
first-equals keys (ps, es, e, p, f) = record {
  later = [];
  passives = ps;
  earlier = es;
  parts = ap (λ t. equals_start ∷ t) e;
  same_segment = refl;
  only_passive = p;
  fresh = f;
}

opened : (keys : List FormulaKeyKind) → (after keys).in_formula ≡ true → OpenedByEquals keys
unfolding next_formula_segment_state
opened [] h = ground arith
opened (boundary ∷ keys) h = ground arith
opened (navigate ∷ keys) h = later-key navigate keys refl (opened keys (ground arith))
opened (passive ∷ keys) h = later-key passive keys refl (opened keys h)
opened (equals_start ∷ keys) h =
    let o = opened keys in
    elim (Bool-cases (after keys).at_segment_start) [
      | inl s ↦ first-equals keys (start keys s)
      | inr s ↦ later-key equals_start keys refl (o (ground arith))
    ]
opened (other_content ∷ keys) h = later-key other_content keys refl (opened keys (ground arith))

-- After any keys, the segment is a formula exactly if an equals sign was typed, before which there was
-- nothing, a boundary or a key of navigation, passive keys aside, and after which there was no boundary.
pub in_formula_iff :
    (keys : List FormulaKeyKind) → ((after keys).in_formula ≡ true) ↔ OpenedByEquals keys
in_formula_iff keys = (opened keys, λ o. (opened-InFormula keys o).0)
