-- ===== src/Pipeline/IdentityStore/Rows.antt =====
-- The rows of a batch in identity/milvus_store.py, by identity.
use ai_intelligence_theft_de.Base.{
  String, List, [], ◌∷◌, Option, none, some, str_dec, ite, ◌≡◌, refl, ap, ◌∙◌, arith, first_some,
}
use ai_intelligence_theft_de.Base.Dict.{lookup, insert, Distinct, lookup-insert, insert-Distinct}
use ai_intelligence_theft_de.Pipeline.IdentityStore.{Row, Marked, by_identity, values, dedupe}

-- The last entry with a given key.
unfoldable pub newest {ℓ} : {A : Type ℓ} → (A → String) → String → List A → Option A
newest key q [] = none
newest key q (x ∷ xs) = first_some (newest key q xs) (ite (str_dec q (key x)) (some x) none)

module _ {Vector : Type 0} where
  abbrev pub id_of : Row Vector → String
  id_of p = p.identity_id

  abbrev pub marked_id : Marked Vector → String
  marked_id p = p.row.identity_id

  -- The first row with a given identity.
  unfoldable pub find_row : String → List (Row Vector) → Option (Row Vector)
  find_row q [] = none
  find_row q (p ∷ ps) = ite (str_dec q p.identity_id) (some p) (find_row q ps)

  -- No identity stands twice, as Milvus wants it.
  unfoldable pub Unique : List (Row Vector) → Type 0
  Unique [] = Unit
  Unique (p ∷ ps) = (find_row p.identity_id ps ≡ none) × Unique ps

  unfoldable Keyed : List (String × Row Vector) → Type 0
  Keyed [] = Unit
  Keyed ((k, p) ∷ m) = (p.identity_id ≡ k) × Keyed m

  insert-Keyed :
      (p : Row Vector) (m : List (String × Row Vector))
      → Keyed m
      → Keyed (insert str_dec p.identity_id p m)
  unfolding insert Keyed
  insert-Keyed p [] h = (refl, tt)
  insert-Keyed p ((k, r) ∷ m) h = ground (arith, insert-Keyed p m h.1)

  find_row-values :
      (q : String) (m : List (String × Row Vector))
      → Keyed m
      → find_row q (values m) ≡ lookup str_dec q m
  unfolding find_row values lookup Keyed
  find_row-values q [] h = refl
  find_row-values q ((k, p) ∷ m) h = ground (arith, find_row-values q m h.1)

  values-Unique :
      (m : List (String × Row Vector)) → Keyed m → Distinct str_dec m → Unique (values m)
  unfolding Unique values Keyed
  values-Unique [] h d = tt
  values-Unique ((k, p) ∷ m) h d =
      (ap (λ j. find_row j (values m)) h.0 ∙ find_row-values k m h.1 ∙ d.0, values-Unique m h.1 d.1)

  by_identity-Keyed :
      (ps : List (Row Vector)) (m : List (String × Row Vector))
      → Keyed m
      → Distinct str_dec m
      → Keyed (by_identity ps m) × Distinct str_dec (by_identity ps m)
  unfolding by_identity
  by_identity-Keyed [] m h d = (h, d)
  by_identity-Keyed (p ∷ ps) m h d =
      by_identity-Keyed ps (insert str_dec p.identity_id p m) (insert-Keyed p m h)
        (insert-Distinct str_dec p.identity_id p m d)

  lookup-by_identity :
      (q : String) (ps : List (Row Vector)) (m : List (String × Row Vector))
      → lookup str_dec q (by_identity ps m) ≡ first_some (newest id_of q ps) (lookup str_dec q m)
  unfolding by_identity newest
  lookup-by_identity q [] m = refl
  lookup-by_identity q (p ∷ ps) m = ground (
    arith,
    lookup-by_identity q ps (insert str_dec p.identity_id p m),
    lookup-insert str_dec p.identity_id q p m,
  )

  pub dedupe-Unique : (ps : List (Row Vector)) → Unique (dedupe ps)
  unfolding dedupe Keyed
  dedupe-Unique ps =
      let h = by_identity-Keyed ps [] tt tt in values-Unique (by_identity ps []) h.0 h.1

  -- A row is kept for each identity, the newest one.
  pub find_row-dedupe :
      (q : String) (ps : List (Row Vector)) → find_row q (dedupe ps) ≡ newest id_of q ps
  unfolding dedupe lookup Keyed
  find_row-dedupe q ps =
      find_row-values q (by_identity ps []) (by_identity-Keyed ps [] tt tt).0
      ∙ lookup-by_identity q ps []
      ∙ settle (newest id_of q ps)
    where
      settle : (o : Option (Row Vector)) → first_some o none ≡ o
      settle none = refl
      settle (some p) = refl
