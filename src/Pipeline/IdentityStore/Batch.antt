-- ===== src/Pipeline/IdentityStore/Batch.antt =====
-- `batch_resolve` of identity/milvus_store.py, over a client that keeps rows by their identity.
use ai_intelligence_theft_de.Base.{
  ℕ, String, Bool, true, false, ◌&&◌, List, [], ◌∷◌, Option, none, some, str_dec, ◌≡◌, refl, ap,
  ◌∙◌, arith, if◌then◌else◌, first_some, map_some, or_else,
}
use ai_intelligence_theft_de.Base.Dict.{lookup, holds}
use ai_intelligence_theft_de.Base.Calls.{Reply, failed, done, Reply-cases}
use ai_intelligence_theft_de.Pipeline.Identity.{IdentityMatch}
use ai_intelligence_theft_de.Pipeline.IdentityStore.{
  Request, Hit, Row, Marked, Fetched, row_of, parse_batch_results, matched_ids, restore, patch,
  stored_first_seen,
}
use ai_intelligence_theft_de.Pipeline.IdentityStore.Client.{Client, Numerics, Settings}
use ai_intelligence_theft_de.Pipeline.IdentityStore.Resolve.{stored_times, payloads_of}
use ai_intelligence_theft_de.Pipeline.IdentityStore.Rows.{
  newest, marked_id, find_row, Unique, find_row-dedupe,
}
use ai_intelligence_theft_de.Pipeline.IdentityStore.Matches.{
  latest, newest-patch, newest_unfetched, newest-parse,
}

-- What the code relies on: `rows` are the stored rows by identity. A `get` that answers finds those
-- that are asked for, and an `upsert` that succeeds puts each row in the place of the one with its
-- identity. What a failed `upsert` leaves is open.
pub record IsLawful {Vector Score : Type 0} (C : Client Vector Score) : Type 0 where
  pub rows : C.State → String → Option (Row Vector)
  pub rows-create : (r : C.State) (q : String) → rows (C.create_collection r).1 q ≡ rows r q
  pub rows-get :
      (r : C.State) (ids : List String) (fetched : List Fetched)
      → C.get r ids ≡ done fetched
      → (q : String)
      → lookup str_dec q (stored_first_seen fetched [])
        ≡ (if holds str_dec q ids then map_some (λ p. p.first_seen_ts) (rows r q) else none)
  pub rows-upsert :
      (r : C.State) (written : List (Row Vector)) (q : String)
      → Unique written
      → (C.upsert r written).0 ≡ done tt
      → rows (C.upsert r written).1 q ≡ first_some (find_row q written) (rows r q)

-- Whether a call answers.
abbrev pub answers {ℓ} : {E A : Type ℓ} → Reply E A → Bool
answers (failed e) = false
answers (done a) = true

module _ {Vector Score : Type 0} (C : Client Vector Score) (L : IsLawful C)
    (N : Numerics Vector Score) (K : Settings Score) where
  -- The row of an identity after a batch: that of the last request that resolved to it. It keeps the
  -- time at which the identity was first seen, if the stored times could be fetched, and else has the
  -- time of the batch.
  unfoldable pub row_after :
      String
      → List (Request Vector × Vector)
      → ℕ
      → Bool
      → C.State
      → List (IdentityMatch Score)
      → Option (Row Vector)
  row_after q requests now fetches before results =
      first_some
        (map_some
          (λ r. record {
            identity_id = q;
            embedding = r.1;
            camera_id = r.0.camera_id;
            stream_name = r.0.stream_name;
            local_track_id = r.0.local_track_id;
            first_seen_ts =
                or_else
                  (if fetches then map_some (λ p. p.first_seen_ts) (L.rows before q) else none) now;
            last_seen_ts = now;
          })
          (latest q requests results))
        (L.rows before q)

  -- The times that are fetched are those of the matched rows.
  lookup-stored_times :
      (ids : List String) (r : C.State) (q : String)
      → lookup str_dec q (stored_times C N K ids r) ≡ (
          if holds str_dec q ids && answers (C.get r ids)
          then map_some (λ p. p.first_seen_ts) (L.rows r q)
          else none)
  unfolding stored_times lookup
  lookup-stored_times [] r q = refl
  lookup-stored_times (id ∷ ids) r q =
      Reply-cases
        (λ x.
          C.get r (id ∷ ids) ≡ x
          → lookup str_dec q (stored_times C N K (id ∷ ids) r) ≡ (
              if holds str_dec q (id ∷ ids) && answers (C.get r (id ∷ ids))
              then map_some (λ p. p.first_seen_ts) (L.rows r q)
              else none))
        (C.get r (id ∷ ids)) (λ e h i. ground (arith, h))
        (λ fetched h i. ground (arith, h, L.rows-get r (id ∷ ids) fetched h q)) refl

  restore-row_of :
      (q : String) (stored : List (String × ℕ)) (r : Request Vector × Vector) (now : ℕ)
      → restore stored (row_of r.0 r.1 q now now)
        ≡ row_of r.0 r.1 q (or_else (lookup str_dec q stored) now) now
  unfolding restore row_of
  restore-row_of q stored r now = ground arith

  restored :
      (q : String) (before : C.State) (ids : List String) (now : ℕ) (o : Option (Marked Vector))
      (l : Option (Request Vector × Vector))
      → ((p : Marked Vector) → o ≡ some p → holds str_dec q ids ≡ false → L.rows before q ≡ none)
      → map_some (λ p. p.row) o ≡ map_some (λ r. row_of r.0 r.1 q now now) l
      → map_some (λ p. restore (stored_times C N K ids before) p.row) o
        ≡ map_some
            (λ r.
              row_of r.0 r.1 q
                (or_else
                  (if answers (C.get before ids)
                    then map_some (λ p. p.first_seen_ts) (L.rows before q)
                    else none)
                  now)
                now)
            l
  restored q before ids now none none unfetched e = refl
  restored q before ids now none (some r) unfetched e = cc
  restored q before ids now (some p) none unfetched e = cc
  restored q before ids now (some p) (some r) unfetched e = ground (
    arith,
    restore-row_of q (stored_times C N K ids before) r now,
    lookup-stored_times ids before q,
    unfetched p refl,
  )

  -- The row that is written for an identity.
  pub find_row-payloads :
      (q : String) (before : C.State) (requests : List (Request Vector × Vector)) (now drawn : ℕ)
      (found : List (List (Hit Score)))
      → ((n : ℕ) → L.rows before (N.fresh n) ≡ none)
      → let (results, marked, _) =
          parse_batch_results N.zero_score N.geb K.similarity_threshold N.fresh requests found now
            drawn in
        first_some (find_row q (payloads_of C N K before marked)) (L.rows before q)
        ≡ row_after q requests now (answers (C.get before (matched_ids marked))) before results
  unfolding payloads_of row_after row_of
  find_row-payloads q before requests now drawn found clean =
      let (results, marked, _) =
        parse_batch_results N.zero_score N.geb K.similarity_threshold N.fresh requests found now
          drawn in
      let ids = matched_ids marked in
      let stored = stored_times C N K ids before in
      ap (λ o. first_some o (L.rows before q))
        (find_row-dedupe q (patch stored marked)
          ∙ newest-patch q stored marked
          ∙ restored q before ids now (newest marked_id q marked) (latest q requests results)
              (newest_unfetched N.zero_score N.geb K.similarity_threshold N.fresh (L.rows before)
                clean q requests found now drawn)
              (newest-parse N.zero_score N.geb K.similarity_threshold N.fresh q requests found now
                drawn))
