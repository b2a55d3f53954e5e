-- ===== src/Base/Assoc.antt =====
-- A `HashMap` with string keys, as an association list.
use mathlib.Core.Bool.{Bool, true, false}
use mathlib.Core.List.{List, [], ◌∷◌}
use mathlib.Core.Option.{Option, none, some}
use mathlib.Core.Path.{◌≡◌, refl}
use native.Mathlib.Omega.{arith}
use thumbrella.Base.Tests.{if◌then◌else◌}
use thumbrella.Base.Text.{Bytes, bytes_eq, bytes_eq_iff}

module _ {ℓ} {V : Type ℓ} where
  unfoldable pub get : List (Bytes × V) → Bytes → Option V
  get [] k = none
  get ((j, v) ∷ m) k = if bytes_eq j k then some v else get m k

  unfoldable pub remove : List (Bytes × V) → Bytes → List (Bytes × V)
  remove [] k = []
  remove ((j, v) ∷ m) k = let rest = remove m k in if bytes_eq j k then rest else (j, v) ∷ rest

  unfoldable pub insert : List (Bytes × V) → Bytes → V → List (Bytes × V)
  unfolding remove
  insert m k v = (k, v) ∷ remove m k

  unfoldable pub retain : (V → Bool) → List (Bytes × V) → List (Bytes × V)
  retain p [] = []
  retain p ((j, v) ∷ m) = let rest = retain p m in if p v then (j, v) ∷ rest else rest

  pub get-remove_self : (m : List (Bytes × V)) (k : Bytes) → get (remove m k) k ≡ none
  unfolding get remove
  get-remove_self [] k = refl
  get-remove_self ((j, v) ∷ m) k = ground (arith, get-remove_self m k)

  pub get-remove_ne :
      (m : List (Bytes × V)) (k j : Bytes) → bytes_eq k j ≡ false → get (remove m k) j ≡ get m j
  unfolding get remove
  get-remove_ne [] k j h = refl
  get-remove_ne ((i, v) ∷ m) k j h =
      ground (arith, get-remove_ne m k j h, bytes_eq_iff i k, bytes_eq_iff i j, bytes_eq_iff k j)

  pub get-insert :
      (m : List (Bytes × V)) (k j : Bytes) (v : V)
      → get (insert m k v) j ≡ (if bytes_eq k j then some v else get m j)
  unfolding get insert
  get-insert m k j v = ground (arith, get-remove_ne m k j)

  -- A filter drops bindings, and on a map without shadowed bindings only those that fail the test.
  pub get-retain :
      (p : V → Bool) (m : List (Bytes × V)) (k : Bytes) (v : V)
      → get m k ≡ some v
      → p v ≡ true
      → get (retain p m) k ≡ some v
  unfolding get retain
  get-retain p [] k v e h = ground arith
  get-retain p ((j, w) ∷ m) k v e h = ground (arith, get-retain p m k v)

  -- What a filter keeps has passed the test.
  pub get-retain_passed :
      (p : V → Bool) (m : List (Bytes × V)) (k : Bytes) (v : V)
      → get (retain p m) k ≡ some v
      → p v ≡ true
  unfolding get retain
  get-retain_passed p [] k v e = ground arith
  get-retain_passed p ((j, w) ∷ m) k v e = ground (arith, get-retain_passed p m k v)
