-- ===== src/Base/Calls.antt =====
-- A call that may raise: it returns the state in both cases, since what was written stays written.
use mathlib.Core.Path.{◌≡◌, refl}
use mathlib.Core.Option.{Option, none, some}

pub data Reply {ℓ} (E A : Type ℓ) : Type ℓ where
  failed : E → Reply E A
  done : A → Reply E A

abbrev pub Call {ℓ} : Type ℓ → Type ℓ → Type ℓ → Type ℓ
Call S E A = S → Reply E A × S

module _ {ℓ} {S E A : Type ℓ} where
  abbrev pub pure : A → Call S E A
  pure a s = (done a, s)

  abbrev pub raise : E → Call S E A
  raise e s = (failed e, s)

  -- What another object answers, without a change of the state.
  abbrev pub lift : (S → Reply E A) → Call S E A
  lift f s = (f s, s)

  abbrev pub or_raise : Option A → E → Call S E A
  or_raise none e = raise e
  or_raise (some a) e = pure a

infixl 5 ◌>>=◌ ◌>>◌
abbrev pub ◌>>=◌ {ℓ} : {S E A B : Type ℓ} → Call S E A → (A → Call S E B) → Call S E B
◌>>=◌ m f s = let (r, s') = m s in elim r [ failed e ↦ (failed e, s') | done a ↦ f a s' ]

abbrev pub ◌>>◌ {ℓ} : {S E A B : Type ℓ} → Call S E A → Call S E B → Call S E B
m >> k = m >>= λ _. k

-- Either way a call can end.
pub Reply-cases {ℓ} :
    {E A : Type ℓ} (P : Reply E A → Type ℓ) (r : Reply E A)
    → ((e : E) → r ≡ failed e → P r)
    → ((a : A) → r ≡ done a → P r)
    → P r
Reply-cases P (failed e) h k = h e refl
Reply-cases P (done a) h k = k a refl
