-- ===== src/Common/Maps.antt =====
-- A Go map whose keys are UUIDs, as an association list.
use Prim.Native.Nat.{ℕ}
use mathlib.Core.Path.{◌≡◌, refl}
use mathlib.Core.Option.{Option, none, some}
use mathlib.Core.List.{List, [], ◌∷◌}
use native.Mathlib.Omega.{arith}
use microservices_course.Common.Tests.{◌==◌, nat_eq, if◌then◌else◌}

abbrev pub Map {ℓ} : Type ℓ → Type ℓ
Map V = List (ℕ × V)

module _ {ℓ} {V : Type ℓ} where
  -- `v, ok := m[k]`
  unfoldable pub lookup : ℕ → Map V → Option V
  lookup key [] = none
  lookup key ((other, x) ∷ rest) = if other == key then some x else lookup key rest

  -- `m[k] = v`
  unfoldable pub insert : ℕ → V → Map V → Map V
  insert key x [] = (key, x) ∷ []
  insert key x ((other, y) ∷ rest) =
      if other == key then (key, x) ∷ rest else (other, y) ∷ insert key x rest

  pub lookup-insert :
      (key other : ℕ) (x : V) (entries : Map V)
      → lookup other (insert key x entries)
        ≡ (if key == other then some x else lookup other entries)
  unfolding lookup insert
  lookup-insert key other x [] = refl
  lookup-insert key other x ((first, y) ∷ rest) = ground (arith, lookup-insert key other x rest)
