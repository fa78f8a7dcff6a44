-- ===== src/Macro/PlanLaws.antt =====
-- What a plan erases and what it types.
use nexus_key.Base.{
  ◌≤◌, ◌≡◌, ◌⊎◌, refl, Bool, true, false, not, ◌||◌, some, [], ◌∷◌, Wstring, length, inl, inr,
  Option-cases, arith,
}
use nexus_key.Macro.{
  Wctype, CaseMapper, PlanInputs, Found, has_trigger, find_full, find_macro, is_unicode,
  count_backspaces, upper_all, upper_words, apply_case, plan,
}

length-upper_all :
    (m : CaseMapper) (skip : Bool) (s : Wstring) → length (upper_all m skip s) ≡ length s
unfolding upper_all
length-upper_all m skip [] = refl
length-upper_all m skip (c ∷ s) =
    ground (arith, length-upper_all m (not skip) s, length-upper_all m false s)

length-upper_words :
    (w : Wctype) (m : CaseMapper) (skip new_word : Bool) (s : Wstring)
    → length (upper_words w m skip new_word s) ≡ length s
unfolding upper_words
length-upper_words w m skip new_word [] = refl
length-upper_words w m skip new_word (c ∷ s) = ground (
  arith,
  length-upper_words w m false true s,
  length-upper_words w m true true s,
  length-upper_words w m false false s,
)

-- The case changes no length, and a text that was typed as it stands in the table, or found by the
-- composition, is not changed at all.
apply_case-keeps :
    (w : Wctype) (m : CaseMapper) (i : PlanInputs) (f : Found)
    → (length (apply_case w m i f) ≡ length f.text)
      × (f.exact || f.via_composition ≡ true → apply_case w m i f ≡ f.text)
unfolding apply_case
apply_case-keeps w m i f =
    let a = length-upper_all m false f.text in
    let b = length-upper_words w m false true f.text in (ground arith, λ h. ground arith)

find_macro-exact :
    (w : Wctype) (i : PlanInputs) (t : Wstring)
    → i.macro_table i.raw_macro_buffer ≡ some t
    → find_macro w i
      ≡ some (record { text = t; exact = true; via_composition = false; part = has_trigger i })
unfolding find_macro find_full
find_macro-exact w i t h = ground arith

-- A text that stands in the table as it was typed is expanded letter by letter, whatever the settings,
-- and the trigger is taken for a part of it exactly if it is no control character and no space.
pub plan-exact :
    (w : Wctype) (m : CaseMapper) (i : PlanInputs) (t : Wstring)
    → i.macro_table i.raw_macro_buffer ≡ some t
    → ((plan w m i).matched ≡ true)
      × ((plan w m i).expansion ≡ t)
      × ((plan w m i).is_part_of_macro ≡ has_trigger i)
unfolding plan
plan-exact w m i t h =
    let f : Found = record {
      text = t;
      exact = true;
      via_composition = false;
      part = has_trigger i;
    } in
    let hit = find_macro-exact w i t h in
    let kept = (apply_case-keeps w m i f).1 refl in (ground arith, ground arith, ground arith)

-- In the Unicode table a plan erases no more characters than the keys that were typed, or else exactly the
-- previous composition.
pub plan-bs_count :
    (w : Wctype) (m : CaseMapper) (i : PlanInputs)
    → is_unicode i.current_code_table ≡ true
    → ((plan w m i).bs_count ≤ length i.raw_macro_buffer)
      ⊎ ((plan w m i).bs_count ≡ length i.previous_composition)
unfolding plan count_backspaces
plan-bs_count w m i u = elim (Option-cases (find_macro w i)) [
  | inl n ↦ ground arith
  | inr (f, h) ↦ ground arith
]
