-- ===== src/Base/Dict.antt =====
-- A Python dict keyed by numbers, in insertion order, with the sum of its values.
use Prim.Native.Nat.{ℕ, ◌+◌}
use mathlib.Core.Path.{◌≡◌, refl}
use mathlib.Core.Option.{Option, none, some}
use mathlib.Core.List.{List, [], ◌∷◌}
use native.Mathlib.Omega.{arith}
use judgeloom_core.Base.Tests.{◌==◌, if◌then◌else◌}

abbrev pub Dict {ℓ} : Type ℓ → Type ℓ
Dict V = List (ℕ × V)

module _ {ℓ} {V : Type ℓ} where
  abbrev pub lookup : ℕ → Dict V → Option V
  lookup k [] = none
  lookup k ((key, v) ∷ rest) = if k == key then some v else lookup k rest

  -- `d[k] = v`
  abbrev pub insert : ℕ → V → Dict V → Dict V
  insert key value [] = (key, value) ∷ []
  insert key value (e ∷ rest) =
      if key == e.0 then (key, value) ∷ rest else e ∷ insert key value rest

  -- `d.get(k, default)`
  abbrev pub get_or : ℕ → V → Dict V → V
  get_or k v d = elim (lookup k d) [ none ↦ v | some w ↦ w ]

  pub lookup-insert :
      (j k : ℕ) (v : V) (d : Dict V)
      → lookup j (insert k v d) ≡ (if j == k then some v else lookup j d)
  lookup-insert j k v [] = refl
  lookup-insert j k v (e ∷ d) = ground (arith, lookup-insert j k v d)

-- `sum(d.values())`
abbrev pub sum_values : Dict ℕ → ℕ
sum_values [] = 0
sum_values ((_, v) ∷ d) = v + sum_values d
