-- ===== src/Prelude/Maps.antt =====
-- `HashMap<String, V>` and `BTreeMap<String, V>` as association lists. The order of the entries is
-- the order of insertion; what depends on it is said where it matters.
use mathlib.Core.Path.{◌≡◌, refl}
use mathlib.Core.Option.{Option, none, some}
use mathlib.Core.List.{List, [], ◌∷◌}
use native.Mathlib.Omega.{arith}
use mistralrs_proxy.Prelude.Tests.{if◌then◌else◌}
use mistralrs_proxy.Prelude.Text.{Str, str_eq, str_eq_refl, str_eq_iff}

abbrev pub Map {ℓ} : Type ℓ → Type ℓ
Map V = List (Str × V)

module _ {ℓ} {V : Type ℓ} where
  unfoldable pub lookup : Str → Map V → Option V
  lookup k [] = none
  lookup k ((j, v) ∷ m) = if str_eq j k then some v else lookup k m

  -- `insert`, and a write through `get_mut` at a key that is there.
  unfoldable pub insert : Str → V → Map V → Map V
  insert k v [] = (k, v) ∷ []
  insert k v ((j, w) ∷ m) = if str_eq j k then (j, v) ∷ m else (j, w) ∷ insert k v m

  unfoldable pub remove : Str → Map V → Map V
  remove k [] = []
  remove k ((j, v) ∷ m) = if str_eq j k then remove k m else (j, v) ∷ remove k m

  pub lookup-insert :
      (k j : Str) (v : V) (m : Map V)
      → lookup j (insert k v m) ≡ (if str_eq k j then some v else lookup j m)
  unfolding lookup insert
  lookup-insert k j v [] = refl
  lookup-insert k j v ((i, w) ∷ m) =
      ground (
        arith,
        str_eq_iff k j,
        str_eq_iff i k,
        str_eq_iff i j,
        str_eq_refl i,
        lookup-insert k j v m,
      )

  pub lookup-remove :
      (k j : Str) (m : Map V) → lookup j (remove k m) ≡ (if str_eq k j then none else lookup j m)
  unfolding lookup remove
  lookup-remove k j [] = ground arith
  lookup-remove k j ((i, w) ∷ m) =
      ground (arith, str_eq_iff k j, str_eq_iff i k, str_eq_iff i j, lookup-remove k j m)

  pub insert-insert : (k : Str) (v w : V) (m : Map V) → insert k v (insert k w m) ≡ insert k v m
  unfolding insert
  insert-insert k v w [] = ground (arith, str_eq_refl k)
  insert-insert k v w ((i, x) ∷ m) = ground (arith, insert-insert k v w m)
