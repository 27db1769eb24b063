-- ===== src/Pipeline/IdentityStore/Resolve.antt =====
-- identity/milvus_store.py: `resolve_identity`, `refresh_identity` and `batch_resolve`. The clock is an
-- argument.
use ai_intelligence_theft_de.Base.{
  ℕ, suc, String, true, false, List, [], ◌∷◌, Option, none, some, or_else, if◌then◌else◌,
}
use ai_intelligence_theft_de.Base.Calls.{failed, done, pure, raise, lift, or_raise, ◌>>=◌, ◌>>◌}
use ai_intelligence_theft_de.Pipeline.Identity.{IdentityMatch}
use ai_intelligence_theft_de.Pipeline.IdentityStore.{
  Request, Hit, absent, malformed, number, Row, Marked, Fetched, extract_identity_id, first_of,
  hits_of, row_of, parse_batch_results, matched_ids, patch, dedupe, stored_first_seen,
}
use ai_intelligence_theft_de.Pipeline.IdentityStore.Client.{
  Client, Numerics, Settings, Action, malformed_distance, missing_key, watched, ready_semaphore,
  normalize_embedding, normalize_all, get_client, send, ask, ensure_collection_ready,
}

-- `_first_seen_ts`, from the rows that were fetched.
unfoldable pub first_seen_of : List Fetched → ℕ → ℕ
first_seen_of [] fallback = fallback
first_seen_of (f ∷ fs) fallback = or_else f.first_seen_ts fallback

module _ {Vector Score : Type 0} (C : Client Vector Score) (N : Numerics Vector Score)
    (K : Settings Score) where
  unfoldable pub new_match : Score → Action C.State (IdentityMatch Score)
  new_match similarity s = (
    done (record {
      identity_id = N.fresh s.drawn;
      matched_existing = false;
      similarity = some similarity;
    }),
    record s { drawn = suc s.drawn },
  )

  -- The match of `resolve_identity`, which reads the distance without a guard.
  unfoldable pub match_one : Option (Hit Score) → Action C.State (IdentityMatch Score)
  match_one none = new_match N.zero_score
  match_one (some best) = elim best.distance [
    | absent ↦ raise (missing_key "distance")
    | malformed ↦ raise malformed_distance
    | number similarity ↦
        if N.geb similarity K.similarity_threshold
        then (or_raise (extract_identity_id best) (missing_key "identity_id") >>= λ id.
            pure
              (record { identity_id = id; matched_existing = true; similarity = some similarity }))
        else new_match similarity
  ]

  unfoldable pub stored_time : String → ℕ → Action C.State ℕ
  stored_time identity_id now =
      ask C (λ r. C.get r (identity_id ∷ [])) >>= λ rows. pure (first_seen_of rows now)

  unfoldable pub resolve_identity : Request Vector → ℕ → Action C.State (IdentityMatch Score)
  resolve_identity request now = do
    vector ← lift (λ _. normalize_embedding N K request.embedding)
    watched (do
      get_client C
      ensure_collection_ready C
      found ← ask C (λ r. C.search r (vector ∷ []))
      match ← match_one (first_of (hits_of found))
      first_seen ← (if match.matched_existing then stored_time match.identity_id now else pure now)
      send C (λ r. C.upsert r (row_of request vector match.identity_id first_seen now ∷ []))
      pure match)

  unfoldable pub refresh_identity : String → Request Vector → ℕ → Action C.State Unit
  refresh_identity identity_id request now = do
    vector ← lift (λ _. normalize_embedding N K request.embedding)
    watched (do
      get_client C
      ensure_collection_ready C
      first_seen ← stored_time identity_id now
      send C (λ r. C.upsert r (row_of request vector identity_id first_seen now ∷ [])))

  -- The stored times of matched identities. A `get` that raises is passed over.
  unfoldable pub stored_times : List String → C.State → List (String × ℕ)
  stored_times [] remote = []
  stored_times (id ∷ ids) remote = elim (C.get remote (id ∷ ids)) [
    | failed e ↦ []
    | done existing ↦ stored_first_seen existing []
  ]

  unfoldable pub draw : ℕ → Action C.State Unit
  draw drawn s = (done tt, record s { drawn = drawn })

  unfoldable pub vectors_of : List (Request Vector × Vector) → List Vector
  vectors_of [] = []
  vectors_of ((r, v) ∷ rs) = v ∷ vectors_of rs

  -- What is upserted for a batch.
  unfoldable pub payloads_of : C.State → List (Marked Vector) → List (Row Vector)
  payloads_of remote marked = dedupe (patch (stored_times (matched_ids marked) remote) marked)

  unfoldable pub store_batch :
      List (Request Vector × Vector)
      → ℕ
      → List (List (Hit Score))
      → Action C.State (List (IdentityMatch Score))
  store_batch requests now found s =
      let (results, marked, drawn) =
        parse_batch_results N.zero_score N.geb K.similarity_threshold N.fresh requests found now
          s.drawn in
      (draw drawn >> send C (λ r. C.upsert r (payloads_of r marked)) >> pure results) s

  unfoldable pub locked_batch_resolve :
      List (Request Vector × Vector) → ℕ → Action C.State (List (IdentityMatch Score))
  locked_batch_resolve requests now = do
    get_client C
    ensure_collection_ready C
    found ← ask C (λ r. C.search r (vectors_of requests))
    store_batch requests now found

  unfoldable pub batch_resolve :
      List (Request Vector) → Option ℕ → ℕ → Action C.State (List (IdentityMatch Score))
  batch_resolve [] max_concurrent now s = (done [], s)
  batch_resolve (r ∷ rs) max_concurrent now s =
      (lift (λ _. normalize_all N K (r ∷ rs)) >>= λ requests.
      watched (locked_batch_resolve requests now))
        (ready_semaphore max_concurrent s)
