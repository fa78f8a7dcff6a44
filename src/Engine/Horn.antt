-- ===== src/Engine/Horn.antt =====
-- `HandleHornW`: the Telex `w`, with the priorities P1 to P8 of the source.
use nexus_key.Base.{
  ℕ, suc, ◌-◌, Bool, true, false, not, ◌&&◌, ◌||◌, ◌==◌, ltb, if◌then◌else◌, Option, none, some,
  List, [], ◌∷◌, ◌++◌, length, any, ◌<|>◌, is_some,
}
use nexus_key.Scan.{find_last_at}
use nexus_key.State.{
  CharState, Modifier, no_mod, circumflex, breve, horn, mod_eq, blank, is_vowel, at, base_at,
  is_vowel_at,
}
use nexus_key.Letters.{Ctype}
use nexus_key.Helpers.{is_uo_edge_case_prefix, undo_horn_u}
use nexus_key.Engine.Core.{Engine, escape_horn, escape_breve, last_raw}
use nexus_key.Engine.Edit.{drop_last}
use nexus_key.Engine.Modify.{is_simple_telex}
use nexus_key.Engine.Speculate.{would_be_valid_syllable, is_in_qu_cluster, set_mod_at}
use nexus_key.Engine.Circumflex.{escape_with}
use nexus_key.Engine.HornScan.{Attempt, done, relocate_horn, Found, analyse}

-- A circumflex on the sister `a` goes.
unfoldable pub clear_sister : Option ℕ → Engine → Engine
clear_sister none e = e
clear_sister (some a) e =
    if mod_eq (at e.states a).mod_ circumflex then set_mod_at e a no_mod else e

-- P1: ua takes the horn on the u.
unfoldable pub horn_ua : Found → Engine → Attempt
horn_ua f e =
    if f.ua
    then (elim f.u [
      | none ↦ none
      | some u ↦ done (relocate_horn (clear_sister f.a (set_mod_at e u horn)))
    ])
    else none

-- P2: the horn cycle of uo.
unfoldable pub horn_pair : Ctype → ℕ → ℕ → Engine → Attempt
horn_pair ct key u e =
    let o = suc u in
    let u_mod = (at e.states u).mod_ in
    let o_mod = (at e.states o).mod_ in
    let edge = is_uo_edge_case_prefix ct e.states u in
    let o_horned : Engine = set_mod_at e o horn in
    let u_horned : Engine = set_mod_at e u horn in
    let both_horned : Engine = set_mod_at u_horned o horn in
    let u_plain : Engine = set_mod_at e u no_mod in
    let both_plain : Engine = set_mod_at u_plain o no_mod in
    let o_plain : Engine = set_mod_at e o no_mod in
    if not (mod_eq u_mod horn) && (mod_eq o_mod no_mod || mod_eq o_mod circumflex)
    then done (relocate_horn (if edge then o_horned else both_horned))
    else if mod_eq u_mod horn && mod_eq o_mod no_mod
    then done (relocate_horn o_horned)
    else if mod_eq u_mod no_mod && mod_eq o_mod horn && edge
    then done (relocate_horn u_horned)
    else if mod_eq u_mod horn && mod_eq o_mod horn
    then done (escape_with ct key escape_horn both_plain)
    else if mod_eq u_mod no_mod && mod_eq o_mod horn
    then done (escape_with ct key escape_horn o_plain)
    else none

unfoldable pub horn_uo : Ctype → ℕ → Found → Engine → Attempt
horn_uo ct key f e = elim f.pair_u [ none ↦ none | some u ↦ horn_pair ct key u e ]

-- P3: oa takes the breve on the a.
unfoldable pub breve_oa : Found → Engine → Attempt
breve_oa f e =
    if f.oa then (elim f.a [ none ↦ none | some a ↦ done (set_mod_at e a breve) ]) else none

-- P4: a mark that is there goes, and `w` stands as a letter.
unfoldable pub unhorn : Ctype → ℕ → ℕ → Engine → Engine
unhorn ct key h e =
    let s = at e.states h in
    let dropped : Engine = record e { states = drop_last e.states } in
    let cased = if s.is_upper then ct.towupper key else ct.towlower key in
    let undone : Engine = record e { states = undo_horn_u e.states h } in
    if s.synthetic && h == length e.states - 1
    then escape_with ct cased escape_horn dropped
    else escape_with ct key escape_horn (set_mod_at undone h no_mod)

unfoldable pub escape_marked : Ctype → ℕ → Found → Engine → Attempt
escape_marked ct key f e = elim f.horned [
  | some h ↦ done (unhorn ct key h e)
  | none ↦ elim f.breved [
    | some a ↦ done (escape_with ct key escape_breve (set_mod_at e a no_mod))
    | none ↦ none
  ]
]

-- `hasNonVowelAfter`.
unfoldable pub has_non_vowel_after : List CharState → ℕ → Bool
has_non_vowel_after states i =
    is_some (find_last_at (λ j. ltb i j && not (is_vowel_at states j)) (length states))

unfoldable pub is_refused : Ctype → Engine → ℕ → Modifier → Option ℕ → Bool
is_refused ct e i m clear =
    has_non_vowel_after e.states i && not (would_be_valid_syllable ct e i m clear false)

-- P5: a single u takes the horn, the first of uu.
unfoldable pub horn_u : Ctype → Found → Engine → Attempt
horn_u ct f e = elim f.u [
  | none ↦ none
  | some u ↦
      (let first : ℕ = elim f.first_u [ none ↦ u | some i ↦ i ] in
        let target = if f.uu then first else u in
        if is_refused ct e target horn f.a
        then some (false, e)
        else done (relocate_horn (clear_sister f.a (set_mod_at e target horn))))
]

-- P6: a single o takes the horn.
unfoldable pub horn_o : Ctype → Found → Engine → Attempt
horn_o ct f e = elim f.o [
  | none ↦ none
  | some o ↦
      if f.oa
      then none
      else if is_refused ct e o horn none
      then some (false, e)
      else done (relocate_horn (set_mod_at e o horn))
]

-- P7: a single a takes the breve.
unfoldable pub breve_a : Ctype → Found → Engine → Attempt
breve_a ct f e = elim f.a [
  | none ↦ none
  | some a ↦ if is_refused ct e a breve none then some (false, e) else done (set_mod_at e a breve)
]

-- A vowel that is not the i of gi.
abbrev is_nucleus_at : List CharState → ℕ → Bool
is_nucleus_at states i =
    is_vowel_at states i
    && not (base_at states i == b'i' && (ltb 0 i && base_at states (i - 1) == b'g'))

-- P8: `w` stands for ư where there is no vowel yet.
unfoldable pub insert_horned_u : Ctype → ℕ → Engine → Attempt
insert_horned_u ct key e =
    let s : CharState = record blank {
      base = b'u';
      mod_ = horn;
      is_upper = ct.iswupper key;
      synthetic = true;
      raw_idx = last_raw e;
    } in
    if not (is_simple_telex e.config.input_method)
      && not (is_in_qu_cluster e)
      && not (is_some (find_last_at (is_nucleus_at e.states) (length e.states)))
    then done (record e { states = e.states ++ s ∷ [] })
    else none

abbrev is_aou : CharState → Bool
is_aou s = is_vowel s && (s.base == b'a' || s.base == b'o' || s.base == b'u')

unfoldable pub attempts_w : Ctype → ℕ → Found → Engine → Attempt
attempts_w ct key f e =
    horn_ua f e
    <|> horn_uo ct key f e
    <|> breve_oa f e
    <|> escape_marked ct key f e
    <|> horn_u ct f e
    <|> horn_o ct f e
    <|> breve_a ct f e
    <|> insert_horned_u ct key e

abbrev pub or_unhandled : Attempt → Engine → Bool × Engine
or_unhandled none e = (false, e)
or_unhandled (some r) e = r

unfoldable pub handle_horn_w : Ctype → ℕ → Engine → Bool × Engine
handle_horn_w ct key e =
    if is_simple_telex e.config.input_method && not (any is_aou e.states)
    then (false, e)
    else or_unhandled (attempts_w ct key (analyse e.states) e) e
