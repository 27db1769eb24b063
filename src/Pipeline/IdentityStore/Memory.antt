-- ===== src/Pipeline/IdentityStore/Memory.antt =====
-- A client that holds its rows in memory, for the tests: it does what the code relies on.
use ai_intelligence_theft_de.Base.{
  ℕ, String, true, List, [], ◌∷◌, none, some, str_dec, ◌≡◌, refl, arith, ◌==◌, if◌then◌else◌,
  first_some, map_some, Option-cases, inl, inr,
}
use ai_intelligence_theft_de.Base.Dict.{lookup, insert, holds, lookup-insert}
use ai_intelligence_theft_de.Base.Calls.{done}
use ai_intelligence_theft_de.Pipeline.IdentityStore.{Hit, number, Row, Fetched, stored_first_seen}
use ai_intelligence_theft_de.Pipeline.IdentityStore.Client.{Client}
use ai_intelligence_theft_de.Pipeline.IdentityStore.Rows.{find_row, Unique}
use ai_intelligence_theft_de.Pipeline.IdentityStore.Batch.{IsLawful}

abbrev pub Table : Type 0
Table = List (String × Row ℕ)

unfoldable pub fetch : Table → List String → List Fetched
fetch m [] = []
fetch m (id ∷ ids) =
    let rest = fetch m ids in
    elim (lookup str_dec id m) [
      | none ↦ rest
      | some p ↦ record { identity_id = some id; first_seen_ts = some p.first_seen_ts } ∷ rest
    ]

unfoldable pub put_rows : List (Row ℕ) → Table → Table
put_rows [] m = m
put_rows (p ∷ ps) m = put_rows ps (insert str_dec p.identity_id p m)

-- The rows with just this vector.
unfoldable pub alike : ℕ → Table → List (Hit ℕ)
alike v [] = []
alike v ((k, p) ∷ m) =
    let rest = alike v m in
    if p.embedding == v
    then record { distance = number 9; id = some k; identity_id = none; entity = none } ∷ rest
    else rest

unfoldable pub search_all : Table → List ℕ → List (List (Hit ℕ))
search_all m [] = []
search_all m (v ∷ vs) = alike v m ∷ search_all m vs

abbrev pub memory : Client ℕ ℕ
memory = record {
  State = Table;
  open_client = λ _. done tt;
  has_collection = λ _. done true;
  create_collection = λ m. (done tt, m);
  search = λ m vs. done (search_all m vs);
  get = λ m ids. done (fetch m ids);
  upsert = λ m ps. (done tt, put_rows ps m);
}

lookup-fetch :
    (m : Table) (ids : List String) (q : String) (old : List (String × ℕ))
    → lookup str_dec q (stored_first_seen (fetch m ids) old)
      ≡ first_some
          (if holds str_dec q ids
            then map_some (λ p. p.first_seen_ts) (lookup str_dec q m)
            else none)
          (lookup str_dec q old)
unfolding fetch stored_first_seen
lookup-fetch m [] q old = refl
lookup-fetch m (id ∷ ids) q old = elim (Option-cases (lookup str_dec id m)) [
  | inl e ↦ ground (arith, lookup-fetch m ids q old)
  | inr (p, e) ↦ ground (
    arith,
    lookup-fetch m ids q (insert str_dec id p.first_seen_ts old),
    lookup-insert str_dec id q p.first_seen_ts old,
  )
]

lookup-put_rows :
    (ps : List (Row ℕ)) (m : Table) (q : String)
    → Unique ps
    → lookup str_dec q (put_rows ps m) ≡ first_some (find_row q ps) (lookup str_dec q m)
unfolding put_rows find_row Unique
lookup-put_rows [] m q u = refl
lookup-put_rows (p ∷ ps) m q u = ground (
  arith,
  lookup-put_rows ps (insert str_dec p.identity_id p m) q u.1,
  lookup-insert str_dec p.identity_id q p m,
)

pub memory-IsLawful : IsLawful memory
unfolding lookup
memory-IsLawful = record {
  rows = λ m q. lookup str_dec q m;
  rows-create = λ r q. refl;
  rows-get = λ r ids fetched e q. grind (arith, e, lookup-fetch r ids q []);
  rows-upsert = λ r written q u h. lookup-put_rows written r q u;
}

pub rows-memory : (m : Table) (q : String) → memory-IsLawful.rows m q ≡ lookup str_dec q m
unfolding memory-IsLawful
rows-memory m q = refl
