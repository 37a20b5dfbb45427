-- ===== src/Base/Maps.antt =====
-- A Go map with string keys, as the function that a read computes: a missing key reads `none`.
use Prim.Native.String.{String}
use mathlib.Core.Path.{◌≡◌}
use mathlib.Core.Logic.{◌≢◌}
use mathlib.Core.Bool.{Bool}
use mathlib.Core.Option.{Option, none, some}
use native.Mathlib.Omega.{arith}
use text.Mathlib.TextEquality.{eq_iff}
use text.Mathlib.TextPositions.{eq_refl}
use purp_tape.Base.Tests.{str_eq, if◌then◌else◌}

module _ {ℓ} where
  abbrev pub Dict : Type ℓ → Type ℓ
  Dict V = String → Option V

  abbrev pub empty : {V : Type ℓ} → Dict V
  empty k = none

  -- m[key] = v
  abbrev pub insert : {V : Type ℓ} → String → V → Dict V → Dict V
  insert key v m k = if str_eq key k then some v else m k

  -- delete(m, key)
  abbrev pub delete : {V : Type ℓ} → String → Dict V → Dict V
  delete key m k = if str_eq key k then none else m k

  -- for k, v := range m { if drop(v) { delete(m, k) } }
  abbrev pub delete_if : {V : Type ℓ} → (V → Bool) → Dict V → Dict V
  delete_if dropped m k = elim (m k) [ none ↦ none | some v ↦ if dropped v then none else some v ]

module _ {ℓ} {V : Type ℓ} (m : Dict V) where
  pub insert_self : (k : String) (v : V) → insert k v m k ≡ some v
  insert_self k v = rw (eq_refl k)

  pub insert_ne : (k j : String) (v : V) → k ≢ j → insert k v m j ≡ m j
  insert_ne k j v h = ground (arith, eq_iff k j)
