-- ===== src/Engine/CommitLaws.antt =====
-- The text that `Commit` returns, and the engine after it.
use nexus_key.Base.{ℕ, ◌≡◌, ◌⊎◌, inl, inr, refl, true, List, [], ◌∷◌, Wstring, Bool-cases, arith}
use nexus_key.Letters.{Ctype}
use nexus_key.Helpers.{should_auto_restore}
use nexus_key.Engine.Core.{Engine, compose_all, reset}
use nexus_key.Engine.Edit.{match_case, restored, commit_text, commit}

-- A text is the raw keys, or these with the first in upper case, where the composed text begins with
-- a capital.
abbrev pub IsRaw : Ctype → List ℕ → Wstring → Wstring → Type 0
IsRaw ct raw composed text =
    (text ≡ raw)
    ⊎ ((key : ℕ) × (keys : List ℕ) × (first : ℕ) × (rest : Wstring) × (raw ≡ key ∷ keys)
        × (composed ≡ first ∷ rest)
        × (ct.iswupper first ≡ true)
        × (text ≡ ct.towupper key ∷ keys))

match_case-IsRaw :
    (ct : Ctype) (raw composed : Wstring) → IsRaw ct raw composed (match_case ct raw composed)
unfolding match_case
match_case-IsRaw ct [] composed = inl refl
match_case-IsRaw ct (c ∷ raw) [] = inl refl
match_case-IsRaw ct (c ∷ raw) (d ∷ composed) = elim (Bool-cases (ct.iswupper d)) [
  | inl u ↦ rw u (inr (c, raw, d, composed, refl, refl, u, refl))
  | inr u ↦ rw u (inl refl)
]

-- The raw keys that would be committed are put back.
abbrev pub Restores : Ctype → Engine → Wstring → Wstring → Type 0
Restores ct e composed text =
    IsRaw ct e.raw_input composed text × (should_auto_restore text composed ≡ true)

pub restored-cases :
    (ct : Ctype) (e : Engine) (composed : Wstring)
    → (restored ct e composed ≡ composed)
      ⊎ ((restored ct e composed ≡ match_case ct e.raw_input composed)
          × (should_auto_restore (match_case ct e.raw_input composed) composed ≡ true))
unfolding restored
restored-cases ct e composed = ground arith

restored-Restores :
    (ct : Ctype) (e : Engine) (composed : Wstring)
    → (restored ct e composed ≡ composed) ⊎ Restores ct e composed (restored ct e composed)
restored-Restores ct e composed = elim (restored-cases ct e composed) [
  | inl same ↦ inl same
  | inr (raw, r) ↦ inr (rw raw (match_case-IsRaw ct e.raw_input composed, r))
]

pub commit_text-cases :
    (ct : Ctype) (e : Engine)
    → (commit_text ct e ≡ compose_all ct e.states)
      ⊎ ((commit_text ct e ≡ e.raw_input)
          × (should_auto_restore e.raw_input (compose_all ct e.states) ≡ true))
      ⊎ (commit_text ct e ≡ restored ct e (compose_all ct e.states))
unfolding commit_text
commit_text-cases ct e = ground arith

-- `Commit` returns the composed text, or the raw keys, of which the first may be in upper case if the
-- composed text begins with a capital, and the latter only where `ShouldAutoRestore` holds of them; either way the buffers are empty afterwards,
-- and the settings are kept.
pub commit_lem :
    (ct : Ctype) (e : Engine)
    → ((((commit ct e).0 ≡ compose_all ct e.states)
          ⊎ Restores ct e (compose_all ct e.states) (commit ct e).0)
        × ((commit ct e).1.states ≡ [])
        × ((commit ct e).1.raw_input ≡ [])
        × ((commit ct e).1.config ≡ e.config))
unfolding commit reset
commit_lem ct e = (text, refl, refl, refl)
  where
    text :
        (commit_text ct e ≡ compose_all ct e.states)
        ⊎ Restores ct e (compose_all ct e.states) (commit_text ct e)
    text = elim (commit_text-cases ct e) [
      | inl same ↦ inl same
      | inr (inl (raw, r)) ↦ inr (rw raw (inl refl, r))
      | inr (inr spelled) ↦ rw spelled (restored-Restores ct e (compose_all ct e.states))
    ]
