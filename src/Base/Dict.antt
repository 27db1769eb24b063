-- ===== src/Base/Dict.antt =====
-- Python's dictionaries: association lists in the order of first insertion.
-- `d.get(k)` is the library's `lookup`.
use Prim.Native.Nat.{◌+◌, ◌≤◌}
use mathlib.Core.Path.{◌≡◌, refl}
use mathlib.Core.Logic.{ite}
use mathlib.Core.List.{List, [], ◌∷◌, lookup}
use mathlib.Core.Bool.{Bool, true, false}
use mathlib.Core.Option.{none, some}
use ai_intelligence_theft_de.Base.Tests.{if◌then◌else◌}
use native.Mathlib.Omega.{arith}
use ai_intelligence_theft_de.Base.Lists.{length}
unfoldable pub use mathlib.Core.List.{lookup}

module _ {ℓ} {K V : Type ℓ} (dec : Discrete K) where
  -- `d[k] = v`: a key that is there keeps its place.
  unfoldable pub insert : K → V → List (K × V) → List (K × V)
  insert k v [] = (k, v) ∷ []
  insert k v ((j, w) ∷ m) = ite (dec k j) ((j, v) ∷ m) ((j, w) ∷ insert k v m)

  -- `d.pop(k, None)`, its result aside.
  unfoldable pub remove : K → List (K × V) → List (K × V)
  remove k [] = []
  remove k ((j, w) ∷ m) = let rest = remove k m in ite (dec k j) rest ((j, w) ∷ rest)

  -- No key stands twice.
  abbrev pub Distinct : List (K × V) → Type ℓ
  Distinct [] = Unit
  Distinct ((j, w) ∷ m) = (lookup dec j m ≡ none) × Distinct m

  pub lookup-insert :
      (k q : K) (v : V) (m : List (K × V))
      → lookup dec q (insert k v m) ≡ ite (dec q k) (some v) (lookup dec q m)
  unfolding lookup insert
  lookup-insert k q v [] = refl
  lookup-insert k q v ((j, w) ∷ m) = ground (arith, lookup-insert k q v m)

  pub lookup-remove :
      (k q : K) (m : List (K × V)) → lookup dec q (remove k m) ≡ ite (dec q k) none (lookup dec q m)
  unfolding lookup remove
  lookup-remove k q [] = ground arith
  lookup-remove k q ((j, w) ∷ m) = ground (arith, lookup-remove k q m)

  pub insert-Distinct : (k : K) (v : V) (m : List (K × V)) → Distinct m → Distinct (insert k v m)
  unfolding lookup insert
  insert-Distinct k v [] d = (refl, tt)
  insert-Distinct k v ((j, w) ∷ m) d =
      ground (arith, lookup-insert k j v m, insert-Distinct k v m d.1)

  pub remove-Distinct : (k : K) (m : List (K × V)) → Distinct m → Distinct (remove k m)
  unfolding lookup remove
  remove-Distinct k [] d = tt
  remove-Distinct k ((j, w) ∷ m) d = ground (arith, lookup-remove k j m, remove-Distinct k m d.1)

  pub length-insert_absent :
      (k : K) (v : V) (m : List (K × V))
      → lookup dec k m ≡ none
      → length (insert k v m) ≡ length m + 1
  unfolding lookup insert
  length-insert_absent k v [] h = omega arith
  length-insert_absent k v ((j, w) ∷ m) h = ground (arith, length-insert_absent k v m)

  pub length-insert_held :
      (k : K) (v w : V) (m : List (K × V))
      → lookup dec k m ≡ some w
      → length (insert k v m) ≡ length m
  unfolding lookup insert
  length-insert_held k v w [] h = absurd (ground arith)
  length-insert_held k v w ((j, x) ∷ m) h = ground (arith, length-insert_held k v w m)

  pub remove_absent : (k : K) (m : List (K × V)) → lookup dec k m ≡ none → remove k m ≡ m
  unfolding lookup remove
  remove_absent k [] h = refl
  remove_absent k ((j, w) ∷ m) h = ground (arith, remove_absent k m)

  pub length-remove-le : (k : K) (m : List (K × V)) → length (remove k m) ≤ length m
  unfolding remove
  length-remove-le k [] = omega arith
  length-remove-le k ((j, w) ∷ m) = ground (arith, length-remove-le k m)

  -- A key that is there once takes one entry with it.
  pub length-remove :
      (k : K) (v : V) (m : List (K × V))
      → Distinct m
      → lookup dec k m ≡ some v
      → length (remove k m) + 1 ≡ length m
  unfolding lookup remove
  length-remove k v [] d h = absurd (ground arith)
  length-remove k v ((j, w) ∷ m) d h = ground (arith, length-remove k v m d.1, remove_absent k m)

-- `[k for k, v in d.items() if p(v)]`
abbrev pub keys_where {ℓ} : {K V : Type ℓ} → (V → Bool) → List (K × V) → List K
keys_where p [] = []
keys_where p ((j, v) ∷ m) = let rest = keys_where p m in if p v then j ∷ rest else rest

-- `k in ks`.
abbrev pub holds {ℓ} : {K : Type ℓ} → Discrete K → K → List K → Bool
holds dec k [] = false
holds dec k (j ∷ ks) = let rest = holds dec k ks in elim (dec k j) [ yes e ↦ true | no n ↦ rest ]

module _ {ℓ} {K V : Type ℓ} (dec : Discrete K) where
  -- `for k in ks: d.pop(k, None)`
  abbrev pub remove_all : List K → List (K × V) → List (K × V)
  remove_all [] m = m
  remove_all (k ∷ ks) m = remove_all ks (remove dec k m)

  pub lookup-remove_all :
      (q : K) (ks : List K) (m : List (K × V))
      → lookup dec q (remove_all ks m) ≡ (if holds dec q ks then none else lookup dec q m)
  lookup-remove_all q [] m = refl
  lookup-remove_all q (k ∷ ks) m =
      ground (arith, lookup-remove_all q ks (remove dec k m), lookup-remove dec k q m)

  pub remove_all-Distinct :
      (ks : List K) (m : List (K × V)) → Distinct dec m → Distinct dec (remove_all ks m)
  remove_all-Distinct [] m d = d
  remove_all-Distinct (k ∷ ks) m d =
      remove_all-Distinct ks (remove dec k m) (remove-Distinct dec k m d)

  pub holds-keys_where_absent :
      (p : V → Bool) (q : K) (m : List (K × V))
      → lookup dec q m ≡ none
      → holds dec q (keys_where p m) ≡ false
  unfolding lookup
  holds-keys_where_absent p q [] h = refl
  holds-keys_where_absent p q ((j, v) ∷ m) h = ground (arith, holds-keys_where_absent p q m)

  pub holds-keys_where :
      (p : V → Bool) (q : K) (v : V) (m : List (K × V))
      → Distinct dec m
      → lookup dec q m ≡ some v
      → holds dec q (keys_where p m) ≡ p v
  unfolding lookup
  holds-keys_where p q v [] d h = absurd (ground arith)
  holds-keys_where p q v ((j, w) ∷ m) d h =
      ground (arith, holds-keys_where p q v m d.1, holds-keys_where_absent p q m)
