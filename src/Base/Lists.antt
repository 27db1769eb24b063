-- ===== src/Base/Lists.antt =====
-- Lists measured and cut by native numbers, under the library's names.
use Prim.Native.Nat.{ℕ, zero, suc, ◌+◌, ◌-◌, ◌≤◌, min}
use mathlib.Core.Path.{◌≡◌, refl, ap}
use mathlib.Core.List.{List, [], ◌∷◌, ◌++◌}
use mathlib.Core.Bool.{Bool, true, false, not, ◌&&◌, ◌||◌}
use mathlib.Core.Option.{Option, none, some}
use native.Mathlib.Omega.{arith}

module _ {ℓ} {A : Type ℓ} where
  abbrev pub length : List A → ℕ
  length [] = 0
  length (x ∷ xs) = suc (length xs)

  abbrev pub drop : ℕ → List A → List A
  drop zero xs = xs
  drop (suc n) [] = []
  drop (suc n) (x ∷ xs) = drop n xs

  abbrev pub replicate : ℕ → A → List A
  replicate zero a = []
  replicate (suc n) a = a ∷ replicate n a

  -- Python's `xs[-1]`; `none` stands for the IndexError.
  abbrev pub last? : List A → Option A
  last? [] = none
  last? (x ∷ []) = some x
  last? (x ∷ y ∷ xs) = last? (y ∷ xs)

  pub length-append : (xs ys : List A) → length (xs ++ ys) ≡ length xs + length ys
  length-append [] ys = omega arith
  length-append (x ∷ xs) ys = omega (arith, length-append xs ys)

  pub length-drop : (n : ℕ) (xs : List A) → length (drop n xs) ≡ length xs - n
  length-drop zero xs = omega arith
  length-drop (suc n) [] = omega arith
  length-drop (suc n) (x ∷ xs) = omega (arith, length-drop n xs)

  pub length-replicate : (n : ℕ) (a : A) → length (replicate n a) ≡ n
  length-replicate zero a = refl
  length-replicate (suc n) a = ap suc (length-replicate n a)

module _ {ℓ} {A : Type ℓ} where
  -- The last `n` entries.
  abbrev pub take_right : ℕ → List A → List A
  take_right n xs = drop (length xs - n) xs

  pub take_right_all : (n : ℕ) (xs : List A) → length xs ≤ n → take_right n xs ≡ xs
  take_right_all n xs h = go (length xs - n) (omega arith)
    where
      go : (k : ℕ) → k ≡ 0 → drop k xs ≡ xs
      go zero e = refl
      go (suc k) e = absurd (omega arith)

  pub length-take_right : (n : ℕ) (xs : List A) → length (take_right n xs) ≡ min n (length xs)
  length-take_right n xs = omega (arith, length-drop (length xs - n) xs)

  abbrev pub all : (A → Bool) → List A → Bool
  all p [] = true
  all p (x ∷ xs) = p x && all p xs

  abbrev pub any : (A → Bool) → List A → Bool
  any p [] = false
  any p (x ∷ xs) = p x || any p xs

  -- A list comprehension with a condition.
  abbrev pub keep : (A → Bool) → List A → List A
  keep p [] = []
  keep p (x ∷ xs) = let rest = keep p xs in elim (p x) [ true ↦ x ∷ rest | false ↦ rest ]

  pub length-keep-le : (p : A → Bool) (xs : List A) → length (keep p xs) ≤ length xs
  length-keep-le p [] = omega arith
  length-keep-le p (x ∷ xs) = ground (arith, length-keep-le p xs)

  pub length-keep-not :
      (p : A → Bool) (xs : List A)
      → length (keep p xs) + length (keep (λ x. not (p x)) xs) ≡ length xs
  length-keep-not p [] = omega arith
  length-keep-not p (x ∷ xs) = ground (arith, length-keep-not p xs)

  pub keep-true :
      (p : A → Bool) (x : A) (xs : List A) → p x ≡ true → keep p (x ∷ xs) ≡ x ∷ keep p xs
  keep-true p x xs h = ground arith

  pub keep-false : (p : A → Bool) (x : A) (xs : List A) → p x ≡ false → keep p (x ∷ xs) ≡ keep p xs
  keep-false p x xs h = ground arith

-- A statement about a match on a list, from its cases.
pub List_elim {ℓ ℓ' κ} :
    {A : Type ℓ} {B : Type ℓ'} (P : B → Type κ) (xs : List A) (x : B) (f : A → List A → B)
    → (xs ≡ [] → P x)
    → ((a : A) (rest : List A) → xs ≡ a ∷ rest → P (f a rest))
    → P (elim xs [ [] ↦ x | a ∷ rest ↦ f a rest ])
List_elim P [] x f h k = h refl
List_elim P (a ∷ rest) x f h k = k a rest refl
