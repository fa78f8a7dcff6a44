-- ===== src/Macro/Segments.antt =====
-- `ExpandEscapesForClipboard` and `BuildSegments`: the segments of an expansion against its text, and
-- against the text for the clipboard.
use nexus_key.Base.{
  ℕ, ◌≡◌, ◌∙◌, refl, ap, sym, Bool, true, false, if◌then◌else◌, List, [], ◌∷◌, ◌++◌, append_assoc,
  Wstring, inl, inr, Bool-cases, arith,
}
use nexus_key.Macro.{CodeTable, unicode, is_escape}

-- `ExpandEscapesForClipboard`.
unfoldable pub expand_escapes : Bool → Wstring → Wstring
expand_escapes skip [] = []
expand_escapes skip (c ∷ rest) =
    let after_escape = expand_escapes false rest in
    let escape = 0x0D ∷ 0x0A ∷ expand_escapes true rest in
    let plain = c ∷ expand_escapes false rest in
    if skip then after_escape else if is_escape c rest then escape else plain

abbrev pub expand_escapes_for_clipboard : Wstring → Wstring
expand_escapes_for_clipboard text = expand_escapes false text

pub data Segment : Type 0 where
  return : Segment
  text : Wstring → Segment

-- `flush`: the text so far is a segment, unless it is empty.
abbrev pub flush : Wstring → List Segment → List Segment
flush [] later = later
flush (c ∷ cur) later = text (c ∷ cur) ∷ later

-- The loop of `BuildSegments`, with the units that a character takes.
unfoldable pub segments_from : (ℕ → Wstring) → Bool → Wstring → Wstring → List Segment
segments_from convert skip cur [] = flush cur []
segments_from convert skip cur (c ∷ rest) =
    let after_escape = segments_from convert false cur rest in
    let escape = flush cur (return ∷ segments_from convert true [] rest) in
    let plain = segments_from convert false (cur ++ convert c) rest in
    if skip then after_escape else if is_escape c rest then escape else plain

abbrev pub units : (CodeTable → ℕ → Wstring) → CodeTable → ℕ → Wstring
units convert_char unicode c = c ∷ []
units convert_char table c = convert_char table c

unfoldable pub build_segments : (CodeTable → ℕ → Wstring) → Wstring → CodeTable → List Segment
build_segments convert_char expansion table =
    segments_from (units convert_char table) false [] expansion

-- The text of the segments, with a text for each return.
abbrev pub joined : Wstring → List Segment → Wstring
joined r [] = []
joined r (return ∷ segments) = r ++ joined r segments
joined r (text t ∷ segments) = t ++ joined r segments

joined-flush :
    (r cur : Wstring) (later : List Segment) → joined r (flush cur later) ≡ cur ++ joined r later
joined-flush r [] later = refl
joined-flush r (c ∷ cur) later = refl

-- A text with each escape replaced, and each other character by its units.
unfoldable pub replaced : (ℕ → Wstring) → Wstring → Bool → Wstring → Wstring
replaced convert r skip [] = []
replaced convert r skip (c ∷ rest) =
    let after_escape = replaced convert r false rest in
    let escape = r ++ replaced convert r true rest in
    let plain = convert c ++ replaced convert r false rest in
    if skip then after_escape else if is_escape c rest then escape else plain

segments_from-replaced :
    (convert : ℕ → Wstring) (r : Wstring) (skip : Bool) (cur rest : Wstring)
    → joined r (segments_from convert skip cur rest) ≡ cur ++ replaced convert r skip rest
unfolding segments_from replaced
segments_from-replaced convert r skip cur [] = joined-flush r cur []
segments_from-replaced convert r true cur (c ∷ rest) =
    segments_from-replaced convert r false cur rest
segments_from-replaced convert r false cur (c ∷ rest) = elim (Bool-cases (is_escape c rest)) [
  | inl t ↦ rw t (
      joined-flush r cur _
      ∙ ap (λ u. cur ++ (r ++ u)) (segments_from-replaced convert r true [] rest))
  | inr f ↦ rw f (
      segments_from-replaced convert r false (cur ++ convert c) rest
      ∙ append_assoc cur (convert c) (replaced convert r false rest))
]

-- An escape is put back as it was.
replaced-pair :
    (c d : ℕ) (rest : Wstring)
    → replaced (λ u. u ∷ []) (0x5C ∷ b'n' ∷ []) false rest ≡ rest
    → replaced (λ u. u ∷ []) (0x5C ∷ b'n' ∷ []) false (d ∷ rest) ≡ d ∷ rest
    → replaced (λ u. u ∷ []) (0x5C ∷ b'n' ∷ []) false (c ∷ d ∷ rest) ≡ c ∷ d ∷ rest
unfolding replaced
replaced-pair c d rest h k = elim (Bool-cases (is_escape c (d ∷ rest))) [
  | inl t ↦ rw t (escaped (ground arith) (ground arith))
  | inr f ↦ rw f (ap (λ u. c ∷ u) k)
]
  where
    escaped :
        c ≡ 0x5C
        → d ≡ b'n'
        → 0x5C ∷ b'n' ∷ replaced (λ u. u ∷ []) (0x5C ∷ b'n' ∷ []) false rest ≡ c ∷ d ∷ rest
    escaped p q = rw (p, q, h) refl

replaced-id : (s : Wstring) → replaced (λ u. u ∷ []) (0x5C ∷ b'n' ∷ []) false s ≡ s
unfolding replaced
replaced-id [] = refl
replaced-id (c ∷ []) = ground arith
replaced-id (c ∷ d ∷ rest) = replaced-pair c d rest (replaced-id rest) (replaced-id (d ∷ rest))

-- In the Unicode table, the segments read one after the other, with a backslash and an n for each return,
-- are the expansion.
pub build_segments-joined :
    (convert_char : CodeTable → ℕ → Wstring) (s : Wstring)
    → joined (0x5C ∷ b'n' ∷ []) (build_segments convert_char s unicode) ≡ s
unfolding build_segments
build_segments-joined convert_char s =
    segments_from-replaced (λ u. u ∷ []) (0x5C ∷ b'n' ∷ []) false [] s ∙ replaced-id s

expand_escapes-replaced :
    (skip : Bool) (s : Wstring)
    → expand_escapes skip s ≡ replaced (λ u. u ∷ []) (0x0D ∷ 0x0A ∷ []) skip s
unfolding expand_escapes replaced
expand_escapes-replaced skip [] = refl
expand_escapes-replaced true (c ∷ s) = expand_escapes-replaced false s
expand_escapes-replaced false (c ∷ s) =
    ground (arith, expand_escapes-replaced false s, expand_escapes-replaced true s)

-- In the Unicode table, the text for the clipboard is that of the segments, with a carriage return and a
-- line feed for each return.
pub expand_escapes_for_clipboard-joined :
    (convert_char : CodeTable → ℕ → Wstring) (s : Wstring)
    → expand_escapes_for_clipboard s
      ≡ joined (0x0D ∷ 0x0A ∷ []) (build_segments convert_char s unicode)
unfolding build_segments
expand_escapes_for_clipboard-joined convert_char s =
    expand_escapes-replaced false s
    ∙ sym (segments_from-replaced (λ u. u ∷ []) (0x0D ∷ 0x0A ∷ []) false [] s)
