-- ===== src/Engine/HornScan.antt =====
-- The letters that the Telex `w` looks for: the two loops of `HandleHornW`.
use nexus_key.Base.{
  ℕ, suc, ◌-◌, Bool, true, not, ◌&&◌, ◌||◌, ◌==◌, ltb, Option, some, List, length, is_some,
}
use nexus_key.Scan.{find_last_at, find_first_at}
use nexus_key.State.{
  CharState, Modifier, no_mod, circumflex, breve, horn, mod_eq, at, base_at, is_vowel_at,
}
use nexus_key.Engine.Core.{Engine}
use nexus_key.Engine.Relocate.{relocate_tone_to_horn_vowel}

-- A handler that leaves the key to the next one gives `none`.
abbrev pub Attempt : Type 0
Attempt = Option (Bool × Engine)

abbrev pub done : Engine → Attempt
done e = some (true, e)

-- `RelocateToneToHornVowel` on the engine.
abbrev pub relocate_horn : Engine → Engine
relocate_horn e = record e { states = relocate_tone_to_horn_vowel e.states }

-- `isQUClusterU`.
unfoldable pub is_qu_cluster_u : List CharState → ℕ → Bool
is_qu_cluster_u states i =
    ltb 0 i
    && base_at states i == b'u'
    && mod_eq (at states i).mod_ no_mod
    && base_at states (i - 1) == b'q'

abbrev pub is_mod_at : List CharState → Modifier → ℕ → Bool
is_mod_at states m i = mod_eq (at states i).mod_ m

-- A vowel that `w` may change.
abbrev pub is_candidate : List CharState → ℕ → ℕ → Bool
is_candidate states c i =
    is_vowel_at states i && not (is_qu_cluster_u states i) && base_at states i == c

abbrev pub is_plain_u : List CharState → ℕ → Bool
is_plain_u states i = is_candidate states b'u' i && is_mod_at states no_mod i

abbrev pub is_plain_or_circumflexed : List CharState → ℕ → ℕ → Bool
is_plain_or_circumflexed states c i =
    is_candidate states c i && (is_mod_at states no_mod i || is_mod_at states circumflex i)

abbrev pub is_horned_uo : List CharState → ℕ → Bool
is_horned_uo states i =
    (is_candidate states b'u' i || is_candidate states b'o' i) && is_mod_at states horn i

-- Two neighbouring vowels, the first not the u of qu.
abbrev pub is_pair_at : List CharState → ℕ → ℕ → ℕ → Bool
is_pair_at states c d i =
    is_vowel_at states i
    && is_vowel_at states (suc i)
    && not (is_qu_cluster_u states i)
    && base_at states i == c
    && base_at states (suc i) == d

-- What the two loops of the source find.
pub record Found : Type 0 where
  pub u : Option ℕ
  pub first_u : Option ℕ
  pub o : Option ℕ
  pub a : Option ℕ
  pub horned : Option ℕ
  pub breved : Option ℕ
  pub ua : Bool
  pub oa : Bool
  pub uu : Bool
  pub pair_u : Option ℕ

unfoldable pub analyse : List CharState → Found
analyse states =
    let n = length states in
    record {
      u = find_last_at (is_plain_u states) n;
      first_u = find_first_at (is_plain_u states) n 0;
      o = find_last_at (is_plain_or_circumflexed states b'o') n;
      a = find_last_at (is_plain_or_circumflexed states b'a') n;
      horned = find_last_at (is_horned_uo states) n;
      breved = find_last_at (λ i. is_candidate states b'a' i && is_mod_at states breve i) n;
      ua = is_some (find_last_at (is_pair_at states b'u' b'a') (n - 1));
      oa = is_some (find_last_at (is_pair_at states b'o' b'a') (n - 1));
      uu = is_some (find_last_at (is_pair_at states b'u' b'u') (n - 1));
      pair_u = find_last_at (is_pair_at states b'u' b'o') (n - 1);
    }
