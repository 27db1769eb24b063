-- ===== src/Pipeline/IdentityStore/Client.antt =====
-- identity/milvus_store.py: `MilvusIdentityStore` over a client of Milvus, which is not part of the
-- repository. Its arguments that never change (the collection, the limit, the timeout) are left out.
-- Each call takes the lock for its whole run, so that a call is one step.
use ai_intelligence_theft_de.Base.{
  ℕ, suc, max, String, Bool, true, false, not, List, [], ◌∷◌, Option, none, some, if◌then◌else◌,
  ◌==◌,
}
use ai_intelligence_theft_de.Base.Calls.{Reply, failed, done, Call, pure, ◌>>=◌, ◌>>◌}
use ai_intelligence_theft_de.Pipeline.IdentityStore.{Request, Hit, Row, Fetched}

pub data Error : Type 0 where
  wrong_dimension : ℕ → Error
  zero_norm malformed_distance : Error
  missing_key : String → Error
  from_client : String → Error

-- Milvus as the code calls it, from one state of the server to the next.
pub record Client (Vector Score : Type 0) : Type 1 where
  pub State : Type 0
  pub open_client : State → Reply Error Unit
  pub has_collection : State → Reply Error Bool
  pub create_collection : State → Reply Error Unit × State
  pub search : State → List Vector → Reply Error (List (List (Hit Score)))
  pub get : State → List String → Reply Error (List Fetched)
  pub upsert : State → List (Row Vector) → Reply Error Unit × State

-- numpy's vectors, Python's floats, and uuid4.
pub record Numerics (Vector Score : Type 0) : Type 0 where
  pub size : Vector → ℕ
  pub has_norm : Vector → Bool
  pub unit : Vector → Vector
  pub zero_score : Score
  pub geb : Score → Score → Bool
  pub fresh : ℕ → String

pub record Settings (Score : Type 0) : Type 0 where
  pub embedding_dimension : ℕ
  pub similarity_threshold : Score

-- `MilvusIdentityStore`: `connected` says whether a client is held, `semaphore` its capacity, `remote`
-- is the server.
pub record Store (State : Type 0) : Type 0 where
  pub connected : Bool
  pub healthy : Bool
  pub last_error : Option Error
  pub max_concurrent_batches : ℕ
  pub semaphore : Option ℕ
  pub drawn : ℕ
  pub remote : State

unfoldable pub init : {State : Type 0} → ℕ → State → Store State
init max_concurrent_batches remote = record {
  connected = false;
  healthy = true;
  last_error = none;
  max_concurrent_batches = max 1 max_concurrent_batches;
  semaphore = none;
  drawn = 0;
  remote = remote;
}

-- `max(1, max_concurrent or self._max_concurrent_batches)`
unfoldable pub capacity_of : Option ℕ → ℕ → ℕ
capacity_of (some (suc n)) default_limit = suc n
capacity_of _ default_limit = max 1 default_limit

abbrev pub Action : Type 0 → Type 0 → Type 0
Action State = Call (Store State) Error

module _ {State : Type 0} where
  unfoldable pub mark_healthy : Store State → Store State
  mark_healthy s = record s { healthy = true; last_error = none }

  unfoldable pub mark_unhealthy : Error → Store State → Store State
  mark_unhealthy e s = record s { connected = false; healthy = false; last_error = some e }

  -- The `try` of every public call.
  unfoldable pub watched : {A : Type 0} → Action State A → Action State A
  watched m s =
      let (r, s') = m s in
      elim r [ failed e ↦ (failed e, mark_unhealthy e s') | done a ↦ (done a, mark_healthy s') ]

  unfoldable pub close : Store State → Store State
  close s = record s { connected = false }

  -- `health_snapshot`
  unfoldable pub health_snapshot : Store State → Bool × Option Error
  health_snapshot s = (s.healthy, s.last_error)

  unfoldable pub ready_semaphore : Option ℕ → Store State → Store State
  ready_semaphore max_concurrent s =
      let capacity = capacity_of max_concurrent s.max_concurrent_batches in
      elim s.semaphore [
        | some held ↦ s
        | none ↦ record s { max_concurrent_batches = capacity; semaphore = some capacity }
      ]

module _ {Vector Score : Type 0} (N : Numerics Vector Score) (K : Settings Score) where
  unfoldable pub normalize_embedding : Vector → Reply Error Vector
  normalize_embedding v =
      if not (N.size v == K.embedding_dimension)
      then failed (wrong_dimension (N.size v))
      else (if N.has_norm v then done (N.unit v) else failed zero_norm)

  -- The list comprehension of `batch_resolve`: every request beside its vector.
  unfoldable pub normalize_all :
      List (Request Vector) → Reply Error (List (Request Vector × Vector))
  normalize_all [] = done []
  normalize_all (r ∷ rs) =
      let rest = normalize_all rs in
      elim (normalize_embedding r.embedding) [
        | failed e ↦ failed e
        | done v ↦ elim rest [ failed e ↦ failed e | done vs ↦ done ((r, v) ∷ vs) ]
      ]

module _ {Vector Score : Type 0} (C : Client Vector Score) where
  unfoldable pub get_client : Action C.State Unit
  get_client s = if s.connected then (done tt, s) else (elim (C.open_client s.remote) [
    | failed e ↦ (failed e, s)
    | done _ ↦ (done tt, record s { connected = true })
  ])

  -- A call of the client that changes the server, also where it fails.
  unfoldable pub send : (C.State → Reply Error Unit × C.State) → Action C.State Unit
  send f s = let (r, remote) = f s.remote in (r, record s { remote = remote })

  -- A call of the client that reads.
  abbrev pub ask : {A : Type 0} → (C.State → Reply Error A) → Action C.State A
  ask f s = (f s.remote, s)

  unfoldable pub ensure_collection_ready : Action C.State Unit
  ensure_collection_ready =
      ask C.has_collection >>= λ ready. if ready then pure tt else send C.create_collection

  unfoldable pub ensure_ready : Action C.State Unit
  ensure_ready = watched (get_client >> ensure_collection_ready)
