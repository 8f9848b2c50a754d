-- ===== src/Base/Maps.antt =====
-- `std::unordered_map<std::string, V>` as an association list with at most one entry for a key.
use mathlib.Core.Path.{◌≡◌, refl}
use mathlib.Core.Option.{Option, none, some}
use mathlib.Core.List.{List, [], ◌∷◌, ◌++◌}
use native.Mathlib.Omega.{arith}
use jaeger_client_cpp.Base.Tests.{Bytes, bytes_eq, bytes_eq_iff, if◌then◌else◌}

module _ {ℓ} {V : Type ℓ} where
  -- `find`
  unfoldable pub lookup : Bytes → List (Bytes × V) → Option V
  lookup k [] = none
  lookup k ((j, v) ∷ m) = if bytes_eq j k then some v else lookup k m

  -- `m[k] = v`
  unfoldable pub insert : Bytes → V → List (Bytes × V) → List (Bytes × V)
  insert k v [] = (k, v) ∷ []
  insert k v ((j, w) ∷ m) = if bytes_eq j k then (j, v) ∷ m else (j, w) ∷ insert k v m

  pub lookup-insert :
      (k j : Bytes) (v : V) (m : List (Bytes × V))
      → lookup j (insert k v m) ≡ (if bytes_eq k j then some v else lookup j m)
  unfolding lookup insert
  lookup-insert k j v [] = refl
  lookup-insert k j v ((i, w) ∷ m) =
      ground (arith, bytes_eq_iff k j, bytes_eq_iff i k, bytes_eq_iff i j, lookup-insert k j v m)

  -- A key that is not there goes to the end.
  pub insert_new :
      (k : Bytes) (v : V) (m : List (Bytes × V))
      → lookup k m ≡ none
      → insert k v m ≡ m ++ (k, v) ∷ []
  unfolding lookup insert
  insert_new k v [] h = refl
  insert_new k v ((j, w) ∷ m) h = ground (arith, insert_new k v m)

  pub lookup-append :
      (k : Bytes) (m n : List (Bytes × V))
      → lookup k (m ++ n) ≡ elim (lookup k m) [ none ↦ lookup k n | some v ↦ some v ]
  unfolding lookup
  lookup-append k [] n = refl
  lookup-append k ((j, w) ∷ m) n = ground (arith, lookup-append k m n)

  -- No key has two entries.
  abbrev pub HasUniqueKeys : List (Bytes × V) → Type ℓ
  HasUniqueKeys [] = Unit {ℓ}
  HasUniqueKeys ((k, v) ∷ m) = (lookup k m ≡ none) × HasUniqueKeys m

  -- A key behind some entries is not among them.
  pub unique_front :
      (k : Bytes) (v : V) (m n : List (Bytes × V))
      → HasUniqueKeys (m ++ (k, v) ∷ n)
      → lookup k m ≡ none
  unfolding lookup
  unique_front k v [] n h = refl
  unique_front k v ((j, w) ∷ m) n (hj, hm) = ground (
    arith,
    lookup-append j m ((k, v) ∷ n),
    bytes_eq_iff j k,
    bytes_eq_iff k j,
    unique_front k v m n hm,
  )
