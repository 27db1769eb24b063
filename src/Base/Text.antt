-- ===== src/Base/Text.antt =====
-- Identifiers are native strings, compared by a decision.
use Prim.Native.String.{String}
use mathlib.Core.Path.{◌≡◌, refl, ap}
use mathlib.Core.Logic.{◌↔◌, ite}
use mathlib.Core.Bool.{Bool, true, false, false≢true}
use text.Mathlib.Text.{◌==◌}
use text.Mathlib.TextEquality.{eq_iff}

abbrev dec_of {ℓ} : {P : Type ℓ} (b : Bool) → ((b ≡ true) ↔ P) → Dec P
dec_of true h = yes (h.0 refl)
dec_of false h = no (λ p. false≢true (h.1 p))

unfoldable pub str_dec : Discrete String
str_dec a b = dec_of (a == b) (eq_iff a b)

unfoldable pub pair_dec : Discrete (String × String)
unfolding str_dec
pair_dec a b = elim (str_dec a.0 b.0) [
  | no p ↦ no (λ e. p (ap (λ x. x.0) e))
  | yes p ↦ elim (str_dec a.1 b.1) [
    | no q ↦ no (λ e. q (ap (λ x. x.1) e))
    | yes q ↦ yes (λ i. (p i, q i))
  ]
]

-- `a == b` on strings.
abbrev pub same : String → String → Bool
same a b = ite (str_dec a b) true false
