-- ===== src/Base/Maps.antt =====
-- JavaScript's `Map`: the entries in order of insertion, each key once.
use mathlib.Core.Path.{◌≡◌, refl}
use mathlib.Core.Logic.{ite}
use mathlib.Core.Option.{Option, none, some}
use mathlib.Core.List.{List, [], ◌∷◌, ◌++◌, map}
use native.Mathlib.Omega.{arith}
use mathlib.Core.Bool.{true, false, ◌||◌}
use pixiv_biu.Base.Sets.{includes, Distinct}

abbrev pub keys {ℓ κ} : {K : Type ℓ} {V : Type κ} → List (K × V) → List K
keys = map (λ e. e.0)

module _ {ℓ} {K V : Type ℓ} (dec : Discrete K) where
  -- `map.get(k)`.
  unfoldable pub lookup : K → List (K × V) → Option V
  lookup k [] = none
  lookup k ((j, v) ∷ m) = ite (dec j k) (some v) (lookup k m)

  -- `map.set(k, v)`: a key that is there keeps its place.
  unfoldable pub insert : K → V → List (K × V) → List (K × V)
  insert k v [] = (k, v) ∷ []
  insert k v ((j, w) ∷ m) = ite (dec j k) ((k, v) ∷ m) ((j, w) ∷ insert k v m)

  -- `map.delete(k)`.
  unfoldable pub remove : K → List (K × V) → List (K × V)
  remove k [] = []
  remove k ((j, w) ∷ m) = ite (dec j k) (remove k m) ((j, w) ∷ remove k m)

  pub lookup-insert :
      (j k : K) (v : V) (m : List (K × V))
      → lookup j (insert k v m) ≡ ite (dec k j) (some v) (lookup j m)
  unfolding lookup insert
  lookup-insert j k v [] = refl
  lookup-insert j k v ((i, w) ∷ m) = ground (arith, lookup-insert j k v m)

  pub lookup-remove :
      (j k : K) (m : List (K × V)) → lookup j (remove k m) ≡ ite (dec k j) none (lookup j m)
  unfolding lookup remove
  lookup-remove j k [] = ground arith
  lookup-remove j k ((i, w) ∷ m) = ground (arith, lookup-remove j k m)

-- The keys stay distinct (at the lowest level, since they are compared by Booleans).
module _ {K V : Type 0} (dec : Discrete K) where
  keys-insert-absent :
      (j k : K) (v : V) (m : List (K × V))
      → includes dec j (keys (insert dec k v m)) ≡ ite (dec k j) true (includes dec j (keys m))
  unfolding insert
  keys-insert-absent j k v [] = refl
  keys-insert-absent j k v ((i, w) ∷ m) = ground (arith, keys-insert-absent j k v m)

  pub insert-Distinct :
      (k : K) (v : V) (m : List (K × V))
      → Distinct dec (keys m)
      → Distinct dec (keys (insert dec k v m))
  unfolding insert
  insert-Distinct k v [] d = (refl, tt)
  insert-Distinct k v ((i, w) ∷ m) d =
      ground (arith, insert-Distinct k v m d.1, keys-insert-absent i k v m)

  keys-remove-absent :
      (j k : K) (m : List (K × V))
      → includes dec j (keys m) ≡ false
      → includes dec j (keys (remove dec k m)) ≡ false
  unfolding remove
  keys-remove-absent j k [] h = refl
  keys-remove-absent j k ((i, w) ∷ m) h = ground (arith, keys-remove-absent j k m)

  pub remove-Distinct :
      (k : K) (m : List (K × V)) → Distinct dec (keys m) → Distinct dec (keys (remove dec k m))
  unfolding remove
  remove-Distinct k [] d = tt
  remove-Distinct k ((i, w) ∷ m) d =
      ground (arith, remove-Distinct k m d.1, keys-remove-absent i k m d.0)

  pub lookup-of_absent :
      (k : K) (m : List (K × V)) → includes dec k (keys m) ≡ false → lookup dec k m ≡ none
  unfolding lookup
  lookup-of_absent k [] h = refl
  lookup-of_absent k ((i, w) ∷ m) h = ground (arith, lookup-of_absent k m)

pub includes_head :
    {K : Type 0} (dec : Discrete K) (k : K) (ks : List K) → includes dec k (k ∷ ks) ≡ true
includes_head dec k ks = ground arith

module _ {K V : Type 0} (dec : Discrete K) where
  -- A key that the map has not is appended.
  pub insert-absent :
      (k : K) (v : V) (m : List (K × V))
      → includes dec k (keys m) ≡ false
      → insert dec k v m ≡ m ++ (k, v) ∷ []
  unfolding insert
  insert-absent k v [] h = refl
  insert-absent k v ((j, w) ∷ m) h = ground (arith, insert-absent k v m)

  pub includes-keys-append :
      (k : K) (xs ys : List (K × V))
      → includes dec k (keys (xs ++ ys)) ≡ (includes dec k (keys xs) || includes dec k (keys ys))
  includes-keys-append k [] ys = refl
  includes-keys-append k (x ∷ xs) ys = ground (arith, includes-keys-append k xs ys)
