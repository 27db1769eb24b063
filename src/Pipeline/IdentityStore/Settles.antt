-- ===== src/Pipeline/IdentityStore/Settles.antt =====
-- How a call of identity/milvus_store.py ends.
use ai_intelligence_theft_de.Base.{
  map, ℕ, String, true, false, List, [], ◌∷◌, none, some, ◌≡◌, ◌⊎◌, length,
}
use ai_intelligence_theft_de.Base.Calls.{Reply, failed, done}
use ai_intelligence_theft_de.Pipeline.Identity.{IdentityMatch}
use ai_intelligence_theft_de.Pipeline.IdentityStore.{Request, Hit, Row}
use ai_intelligence_theft_de.Pipeline.IdentityStore.Client.{
  Client, Numerics, Settings, Store, Action, Error, normalize_all,
}
use ai_intelligence_theft_de.Pipeline.IdentityStore.Matches.{matched_of, AllMatch}
use ai_intelligence_theft_de.Pipeline.IdentityStore.Batch.{IsLawful, answers, row_after}

module _ {Vector Score : Type 0} (C : Client Vector Score) (L : IsLawful C)
    (N : Numerics Vector Score) (K : Settings Score) where
  abbrev pub SameRows : C.State → C.State → Type 0
  SameRows before after = (q : String) → L.rows after q ≡ L.rows before q

  -- A part of a call that writes no row, and what follows it.
  abbrev Quiet : {A : Type 0} → Action C.State A → Type 0
  Quiet m = (s : Store C.State) → SameRows s.remote (m s).1.remote

  -- After a call that failed the rows are as before, unless an upsert of the call failed: they are then
  -- what it left.
  pub data FailedFrom (before : C.State) (e : Error) (after : C.State) : Type 0 where
    untouched : SameRows before after → FailedFrom before e after
    at_upsert :
        (r : C.State) (written : List (Row Vector))
        → SameRows before r
        → C.upsert r written ≡ (failed e, after)
        → FailedFrom before e after

  -- What a batch that succeeds did: every request has the match that its best hit calls for, and every
  -- identity its row.
  pub record Resolved (before : C.State) (requests : List (Request Vector × Vector)) (now : ℕ)
      (results : List (IdentityMatch Score)) (after : C.State) : Type 0 where
    pub asked : C.State
    pub same : SameRows before asked
    pub found : List (List (Hit Score))
    pub searched : C.search asked (map (λ p. p.1) requests) ≡ done found
    pub counted : length results ≡ length requests
    pub matches : AllMatch N.geb K.similarity_threshold N.fresh found results
    pub rows :
        (q : String)
        → L.rows after q
          ≡ row_after C L N K q requests now
              (answers (C.get asked (matched_of results)))
              before
              results

  -- How a batch ends that began with the rows of `before`.
  unfoldable pub Wrote :
      C.State
      → List (Request Vector × Vector)
      → ℕ
      → Reply Error (List (IdentityMatch Score)) × Store C.State
      → Type 0
  Wrote before requests now (failed e, s') = FailedFrom before e s'.remote
  Wrote before requests now (done results, s') = Resolved before requests now results s'.remote

  -- The requests beside their unit vectors.
  unfoldable pub beside : List (Request Vector) → List (Request Vector × Vector)
  beside [] = []
  beside (r ∷ rs) = (r, N.unit r.embedding) ∷ beside rs

  -- The whole outcome of a call.
  unfoldable pub Settled :
      Store C.State
      → List (Request Vector)
      → ℕ
      → Reply Error (List (IdentityMatch Score)) × Store C.State
      → Type 0
  Settled s rs now (failed e, s') =
      FailedFrom s.remote e s'.remote
      × (((s'.healthy ≡ false) × (s'.last_error ≡ some e) × (s'.connected ≡ false))
          ⊎ ((normalize_all N K rs ≡ failed e) × (s'.healthy ≡ s.healthy)))
  Settled s rs now (done results, s') =
      ((rs ≡ []) × (results ≡ []) × SameRows s.remote s'.remote)
      ⊎ ((s'.healthy ≡ true)
          × (s'.last_error ≡ none)
          × Resolved s.remote (beside rs) now results s'.remote)
