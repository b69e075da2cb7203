-- ===== src/Common/Assoc.antt =====
-- A map with texts as keys, as an association list: what the program uses of sync.Map.
use Prim.Native.String.{String}
use mathlib.Core.Path.{◌≡◌, refl}
use mathlib.Core.Logic.{◌≢◌}
use mathlib.Core.Option.{Option, none, some}
use mathlib.Core.List.{List, [], ◌∷◌}
use native.Mathlib.Omega.{arith}
use text.Mathlib.Text.{◌==◌}
use text.Mathlib.TextEquality.{eq_iff}
use browserpm.Common.Tests.{if◌then◌else◌}

module _ {ℓ} {V : Type ℓ} where
  unfoldable pub lookup : String → List (String × V) → Option V
  lookup k [] = none
  lookup k ((j, v) ∷ m) = if j == k then some v else lookup k m

  -- The map without a key.
  unfoldable pub delete : String → List (String × V) → List (String × V)
  delete k [] = []
  delete k ((j, v) ∷ m) = let rest = delete k m in if j == k then rest else (j, v) ∷ rest

  -- A key that is not in the map is stored with its value.
  abbrev pub store : String → V → List (String × V) → List (String × V)
  store k v m = (k, v) ∷ m

  pub lookup-store_self :
      (k : String) (v : V) (m : List (String × V)) → lookup k (store k v m) ≡ some v
  unfolding lookup
  lookup-store_self k v m = ground (arith, eq_iff k k)

  pub lookup-store_other :
      (k j : String) (v : V) (m : List (String × V)) → k ≢ j → lookup j (store k v m) ≡ lookup j m
  unfolding lookup
  lookup-store_other k j v m n = ground (arith, eq_iff k j)

  pub lookup-delete_self : (k : String) (m : List (String × V)) → lookup k (delete k m) ≡ none
  unfolding lookup delete
  lookup-delete_self k [] = refl
  lookup-delete_self k ((i, w) ∷ m) = ground (arith, lookup-delete_self k m)

  pub lookup-delete_other :
      (k j : String) (m : List (String × V)) → k ≢ j → lookup j (delete k m) ≡ lookup j m
  unfolding lookup delete
  lookup-delete_other k j [] n = refl
  lookup-delete_other k j ((i, w) ∷ m) n =
      ground (arith, eq_iff i k, eq_iff i j, lookup-delete_other k j m n)

  pub delete-absent : (k : String) (m : List (String × V)) → lookup k m ≡ none → delete k m ≡ m
  unfolding lookup delete
  delete-absent k [] h = refl
  delete-absent k ((i, w) ∷ m) h = ground (arith, delete-absent k m)
