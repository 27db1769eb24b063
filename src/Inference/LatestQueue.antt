-- ===== src/Inference/LatestQueue.antt =====
-- ingress_scheduler.py: `_LatestOnlyQueue`. `notify` is the `asyncio.Queue` of identifiers, whose
-- `maxsize` 0 means unbounded; a batch is any type.
pub mod View
pub mod Contract
use ai_intelligence_theft_de.Base.{
  ℕ, ◌≤◌, String, Bool, true, false, not, ◌&&◌, List, [], ◌∷◌, ◌++◌, Option, none, some, str_dec,
  ltb, leb, length, if◌then◌else◌,
}
use ai_intelligence_theft_de.Base.Dict.{lookup, insert, remove, holds}

pub record LatestQueue (Batch : Type 0) : Type 0 where
  pub latest : List (String × Batch)
  pub queued : List String
  pub notify : List String
  pub maxsize : ℕ

-- `put_latest` returns, or raises `asyncio.QueueFull`.
pub data Put : Type 0 where
  stored queue_full : Put

-- `set.discard`
unfoldable pub discard : String → List String → List String
discard p [] = []
discard p (q ∷ qs) =
    let rest = discard p qs in elim (str_dec p q) [ yes e ↦ rest | no n ↦ q ∷ rest ]

module _ {Batch : Type 0} where
  unfoldable pub init : ℕ → LatestQueue Batch
  init maxsize = record { latest = []; queued = []; notify = []; maxsize = maxsize }

  unfoldable pub qsize : LatestQueue Batch → ℕ
  qsize q = length q.notify

  unfoldable pub full : LatestQueue Batch → Bool
  full q = ltb 0 q.maxsize && leb q.maxsize (length q.notify)

  unfoldable pub put_latest : LatestQueue Batch → String → Batch → LatestQueue Batch × Put
  unfolding full
  put_latest q pid batch =
      let latest = insert str_dec pid batch q.latest in
      if holds str_dec pid q.queued
      then (record q { latest = latest }, stored)
      else if full q
      then (record q { latest = latest }, queue_full)
      else (
        record q { latest = latest; notify = q.notify ++ pid ∷ []; queued = pid ∷ q.queued },
        stored,
      )

  -- The loop of `get` over the identifiers that wait: `none` when it blocks on an empty queue.
  unfoldable pub get_from : LatestQueue Batch → List String → LatestQueue Batch × Option Batch
  get_from q [] = (record q { notify = [] }, none)
  get_from q (pid ∷ rest) =
      let q' = record q { queued = discard pid q.queued } in
      let again = get_from q' rest in
      elim (lookup str_dec pid q.latest) [
        | some batch ↦
            (record q' { notify = rest; latest = remove str_dec pid q.latest }, some batch)
        | none ↦ again
      ]

  unfoldable pub get : LatestQueue Batch → LatestQueue Batch × Option Batch
  unfolding get_from
  get q = get_from q q.notify
