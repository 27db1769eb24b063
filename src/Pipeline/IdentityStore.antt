-- ===== src/Pipeline/IdentityStore.antt =====
-- identity/milvus_store.py: what a search hit says, and the rows that a batch writes. Times are
-- milliseconds. Raised errors are kept as values in place of their texts.
pub mod Client
pub mod Resolve
pub mod Rows
pub mod Matches
pub mod Batch
pub mod Settles
pub mod Memory
use ai_intelligence_theft_de.Base.{
  ℕ, suc, String, Bool, true, false, not, List, [], ◌∷◌, Option, none, some, str_dec, if◌then◌else◌,
}
use ai_intelligence_theft_de.Base.Dict.{lookup, insert}
use ai_intelligence_theft_de.Pipeline.Identity.{IdentityMatch}

-- `BatchResolveRequest`
pub record Request (Vector : Type 0) : Type 0 where
  pub camera_id : String
  pub stream_name : String
  pub local_track_id : String
  pub embedding : Vector

-- The value under "distance": not there, not a number, or a score.
pub data Distance (Score : Type 0) : Type 0 where
  absent malformed : Distance Score
  number : Score → Distance Score

-- A search hit. `entity` is `none` if the value is no dictionary.
pub record Hit (Score : Type 0) : Type 0 where
  pub distance : Distance Score
  pub id : Option String
  pub identity_id : Option String
  pub entity : Option (Option String)

-- What is upserted.
pub record Row (Vector : Type 0) : Type 0 where
  pub identity_id : String
  pub embedding : Vector
  pub camera_id : String
  pub stream_name : String
  pub local_track_id : String
  pub first_seen_ts : ℕ
  pub last_seen_ts : ℕ

-- A payload with its internal marker "_is_new".
pub record Marked (Vector : Type 0) : Type 0 where
  pub row : Row Vector
  pub is_new : Bool

-- A row as `get` returns it.
pub record Fetched : Type 0 where
  pub identity_id : Option String
  pub first_seen_ts : Option ℕ

-- `none` is the KeyError.
unfoldable pub extract_identity_id : {Score : Type 0} → Hit Score → Option String
extract_identity_id best_match = elim best_match.id [
  | some direct_id ↦ some direct_id
  | none ↦ elim best_match.identity_id [
    | some named_id ↦ some named_id
    | none ↦ elim best_match.entity [ none ↦ none | some held ↦ held ]
  ]
]

-- Identities are drawn from `fresh`, which stands for uuid4: `drawn` counts them.
module _ {Score : Type 0} (zero : Score) (geb : Score → Score → Bool) (threshold : Score)
    (fresh : ℕ → String) where
  abbrev pub new_identity : Score → ℕ → IdentityMatch Score × ℕ
  new_identity similarity drawn = (
    record { identity_id = fresh drawn; matched_existing = false; similarity = some similarity },
    suc drawn,
  )

  unfoldable pub extract_best_match : Option (Hit Score) → ℕ → IdentityMatch Score × ℕ
  extract_best_match none drawn = new_identity zero drawn
  extract_best_match (some best) drawn = elim best.distance [
    | absent ↦ new_identity zero drawn
    | malformed ↦ new_identity zero drawn
    | number similarity ↦
        if geb similarity threshold
        then (elim (extract_identity_id best) [
          | none ↦ new_identity zero drawn
          | some id ↦ (
            record { identity_id = id; matched_existing = true; similarity = some similarity },
            drawn,
          )
        ])
        else new_identity similarity drawn
  ]

abbrev pub first_of {ℓ} : {A : Type ℓ} → List A → Option A
first_of [] = none
first_of (x ∷ xs) = some x

-- `search_results[i] if i < len(search_results) else []`, at the head and beyond it.
abbrev pub hits_of {ℓ} : {A : Type ℓ} → List (List A) → List A
hits_of [] = []
hits_of (hits ∷ more) = hits

abbrev pub hits_after {ℓ} : {A : Type ℓ} → List (List A) → List (List A)
hits_after [] = []
hits_after (hits ∷ more) = more

unfoldable pub row_of : {Vector : Type 0} → Request Vector → Vector → String → ℕ → ℕ → Row Vector
row_of request vector identity_id first_seen now = record {
  identity_id = identity_id;
  embedding = vector;
  camera_id = request.camera_id;
  stream_name = request.stream_name;
  local_track_id = request.local_track_id;
  first_seen_ts = first_seen;
  last_seen_ts = now;
}

module _ {Vector Score : Type 0} (zero : Score) (geb : Score → Score → Bool) (threshold : Score)
    (fresh : ℕ → String) where
  -- A request comes with its normalized vector: results, payloads and the identities drawn so far.
  unfoldable pub parse_batch_results :
      List (Request Vector × Vector)
      → List (List (Hit Score))
      → ℕ
      → ℕ
      → List (IdentityMatch Score) × List (Marked Vector) × ℕ
  parse_batch_results [] search_results now drawn = ([], [], drawn)
  parse_batch_results ((request, vector) ∷ more) search_results now drawn =
      let (found, drawn') =
        extract_best_match zero geb threshold fresh (first_of (hits_of search_results)) drawn in
      let (results, payloads, drawn'') =
        parse_batch_results more (hits_after search_results) now drawn' in
      (
        found ∷ results,
        record {
          row = row_of request vector found.identity_id now now;
          is_new = not found.matched_existing;
        }
            ∷ payloads,
        drawn'',
      )

module _ {Vector : Type 0} where
  -- `matched_ids`
  unfoldable pub matched_ids : List (Marked Vector) → List String
  matched_ids [] = []
  matched_ids (p ∷ ps) =
      let rest = matched_ids ps in if p.is_new then rest else p.row.identity_id ∷ rest

  -- Without "_is_new", and with the first time of those that are stored.
  unfoldable pub restore : List (String × ℕ) → Row Vector → Row Vector
  restore stored p = elim (lookup str_dec p.identity_id stored) [
    | none ↦ p
    | some ts ↦ record p { first_seen_ts = ts }
  ]

  unfoldable pub patch : List (String × ℕ) → List (Marked Vector) → List (Row Vector)
  patch stored [] = []
  patch stored (p ∷ ps) = restore stored p.row ∷ patch stored ps

  -- `{p["identity_id"]: p for p in payloads}`
  unfoldable pub by_identity :
      List (Row Vector) → List (String × Row Vector) → List (String × Row Vector)
  by_identity [] m = m
  by_identity (p ∷ ps) m = by_identity ps (insert str_dec p.identity_id p m)

  unfoldable pub values : List (String × Row Vector) → List (Row Vector)
  values [] = []
  values ((k, p) ∷ m) = p ∷ values m

  unfoldable pub dedupe : List (Row Vector) → List (Row Vector)
  dedupe payloads = values (by_identity payloads [])

-- `stored_first_seen`: the rows that have both fields.
unfoldable pub stored_first_seen : List Fetched → List (String × ℕ) → List (String × ℕ)
stored_first_seen [] m = m
stored_first_seen (f ∷ fs) m = elim f.identity_id [
  | none ↦ stored_first_seen fs m
  | some id ↦ elim f.first_seen_ts [
    | none ↦ stored_first_seen fs m
    | some ts ↦ stored_first_seen fs (insert str_dec id ts m)
  ]
]
