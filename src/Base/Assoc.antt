-- ===== src/Base/Assoc.antt =====
-- A Go map as an association list: the laws of reading, writing and deleting in `if` form.
use mathlib.Core.Path.{◌≡◌, refl}
use mathlib.Core.List.{List, [], ◌∷◌}
use mathlib.Core.Option.{Option, none, some}
use native.Mathlib.Omega.{arith}
use conduit_relay.Base.Tests.{if◌then◌else◌}
use conduit_relay.Base.Class.{Eq, ◌==◌, ==_iff}

module _ {ℓ} {K : Type 0} {V : Type ℓ} ⦃e : Eq K⦄ where
  unfoldable pub lookup : K → List (K × V) → Option V
  lookup k [] = none
  lookup k ((key, value) ∷ rest) = if key == k then some value else lookup k rest

  unfoldable pub insert : K → V → List (K × V) → List (K × V)
  insert k v [] = (k, v) ∷ []
  insert k v ((key, value) ∷ rest) =
      if key == k then (k, v) ∷ rest else (key, value) ∷ insert k v rest

  unfoldable pub delete : K → List (K × V) → List (K × V)
  delete k [] = []
  delete k ((j, w) ∷ m) = if j == k then delete k m else (j, w) ∷ delete k m

  pub lookup-insert :
      (key wanted : K) (v : V) (m : List (K × V))
      → lookup wanted (insert key v m) ≡ (if key == wanted then some v else lookup wanted m)
  unfolding lookup insert
  lookup-insert key wanted v [] = refl
  lookup-insert key wanted v ((other, w) ∷ m) = ground (
    arith,
    lookup-insert key wanted v m,
    ==_iff key wanted,
    ==_iff other key,
    ==_iff other wanted,
  )

  pub lookup-delete :
      (k j : K) (m : List (K × V)) → lookup j (delete k m) ≡ (if k == j then none else lookup j m)
  unfolding lookup delete
  lookup-delete k j [] = ground arith
  lookup-delete k j ((i, w) ∷ m) =
      ground (arith, ==_iff k j, ==_iff i k, ==_iff i j, lookup-delete k j m)
