-- ===== src/Inference/Triton.antt =====
-- triton_client.py: `TritonInferenceClient`, the connection to the model server. The server's answers
-- and the clock, in microseconds, are arguments; `occurs` is Python's `in` on texts and `lower` its
-- `str.lower`. A call is one step, and the cap on calls in flight and the metrics,
-- which all clients of the process share, are not modelled.
pub mod Attempts
pub mod Runs
use ai_intelligence_theft_de.Base.{
  ℕ, suc, ◌+◌, max, String, Bool, true, false, not, ◌||◌, List, [], ◌∷◌, Option, none, some, ltb,
  if◌then◌else◌,
}
use ai_intelligence_theft_de.Base.Calls.{Reply, failed, done, Call, pure, raise, ◌>>=◌}

-- An exception of the client library, with its text, or the RuntimeError of a server that is not live.
pub data Cause : Type 0 where
  from_server : String → Cause
  not_live : Cause

-- What `infer` raises: an exception of the request, or that the server is unavailable, with the error of
-- the last attempt, if there was one.
pub data Error : Type 0 where
  caused : Cause → Error
  unavailable : Option Cause → Error

-- `attempts` lists the times of all connection attempts, the last one first.
pub record Triton : Type 0 where
  pub interval : ℕ
  pub has_client : Bool
  pub last_attempt_at : Option ℕ
  pub last_error : Option Cause
  pub attempts : List ℕ

-- At least half a second.
unfoldable pub init : ℕ → Triton
init reconnect_interval = record {
  interval = max 500_000 reconnect_interval;
  has_client = false;
  last_attempt_at = none;
  last_error = none;
  attempts = [];
}

-- What the server answers to an attempt: whether it is live.
unfoldable pub liveness : Reply Cause Bool → Reply Cause Unit
liveness (failed e) = failed e
liveness (done true) = done tt
liveness (done false) = failed not_live

-- `_connect_locked`, which starts at `started`.
unfoldable pub connect_locked : ℕ → Reply Cause Bool → Call Triton Cause Unit
connect_locked started live t =
    let tried = record t { last_attempt_at = some started; attempts = started ∷ t.attempts } in
    elim (liveness live) [
      | failed e ↦ (failed e, record tried { has_client = false; last_error = some e })
      | done _ ↦ (done tt, record tried { has_client = true; last_error = none })
    ]

-- `now - last < interval`
unfoldable pub backs_off : Triton → ℕ → Bool
backs_off t now = elim t.last_attempt_at [ none ↦ false | some last ↦ ltb now (last + t.interval) ]

unfoldable pub succeeded : Reply Cause Unit → Bool
succeeded (failed e) = false
succeeded (done _) = true

unfoldable pub ensure_connected : ℕ → ℕ → Reply Cause Bool → Triton → Bool × Triton
ensure_connected now started live t =
    if t.has_client
    then (true, t)
    else (if backs_off t now
        then (false, t)
        else (let (r, t') = connect_locked started live t in (succeeded r, t')))

-- A client that fails to close stays.
unfoldable pub close : Reply Cause Unit → Call Triton Cause Unit
close answer t =
    if t.has_client
    then (elim answer [
      | failed e ↦ (failed e, t)
      | done _ ↦ (done tt, record t { has_client = false })
    ])
    else (done tt, t)

unfoldable pub reset_client : Triton → Triton
reset_client t = record t { has_client = false }

-- `any(token in message for token in ...)`
abbrev pub any_token : (String → String → Bool) → List String → String → Bool
any_token occurs [] message = false
any_token occurs (k ∷ ks) message = occurs k message || any_token occurs ks message

abbrev pub tokens : List String
tokens = "unavailable" ∷ "connection refused" ∷ "failed to connect" ∷ "connectex" ∷ []

module _ (occurs : String → String → Bool) (lower : String → String) (text : Cause → String) where
  unfoldable pub is_connection_error : Cause → Bool
  is_connection_error e = any_token occurs tokens (lower (text e))

  -- `infer` with the server's answer to the request, from which the outputs are read.
  unfoldable pub infer :
      {Output : Type 0} → ℕ → ℕ → Reply Cause Bool → Reply Cause Output → Call Triton Error Output
  infer now started live answer t =
      let (connected, t') = ensure_connected now started live t in
      if connected
      then (elim answer [
        | failed e ↦ (failed (caused e), if is_connection_error e then reset_client t' else t')
        | done output ↦ (done output, t')
      ])
      else (failed (unavailable t'.last_error), t')
