-- ===== src/Inference/Scheduler/Dispatch.antt =====
-- `ingest`: what it hands to the queue, when, and what it leaves alone.
use ai_intelligence_theft_de.Base.{
  ℕ, ◌<◌, ◌≡◌, ◌↔◌, String, List, some, arith, str_dec, false, last?,
}
use ai_intelligence_theft_de.Base.Dict.{insert}
use ai_intelligence_theft_de.Inference.Contracts.{Sample}
use ai_intelligence_theft_de.Inference.TemporalBuffer
use ai_intelligence_theft_de.Inference.TemporalBuffer.Segments.{last?-get-push}
use ai_intelligence_theft_de.Inference.LatestQueue.{put_latest, stored}
use ai_intelligence_theft_de.Inference.LatestQueue.View.{view, IsValid}
use ai_intelligence_theft_de.Inference.LatestQueue.Contract.{view-put_latest, put_latest-IsValid}
use ai_intelligence_theft_de.Inference.Scheduler.Gate.{IsReady, gate_failure_reasons-IsReady}
use ai_intelligence_theft_de.Inference.Scheduler.{
  Scheduler, Outcome, rejected, cooling, dropped, dispatched, log_visible_state, reject, enqueue,
  pass_gate, ingest, is_cooling,
}

module _ {Crop : Type 0} where
  -- What waits after a call with outcome `o`, where the batch of `s` is `batch`.
  abbrev pub after_outcome :
      Outcome
      → String
      → List (Sample Crop)
      → List (String × List (Sample Crop))
      → List (String × List (Sample Crop))
  after_outcome dispatched pid batch waits = insert str_dec pid batch waits
  after_outcome (rejected rs) pid batch waits = waits
  after_outcome cooling pid batch waits = waits
  after_outcome dropped pid batch waits = waits

  view-enqueue :
      (sch : Scheduler Crop) (s : Sample Crop) (now : ℕ)
      → IsValid sch.queue
      → view (enqueue sch s now).0.queue
        ≡ after_outcome
            (enqueue sch s now).1
            s.persistent_id
            (TemporalBuffer.get sch.buffer s.persistent_id)
            (view sch.queue)
  unfolding enqueue log_visible_state
  view-enqueue sch s now v = ground (
    arith,
    (view-put_latest sch.queue s.persistent_id (TemporalBuffer.get sch.buffer s.persistent_id) v).0,
  )

  view-pass_gate :
      (sch : Scheduler Crop) (s : Sample Crop) (now later : ℕ)
      → IsValid sch.queue
      → view (pass_gate sch s now later).0.queue
        ≡ after_outcome
            (pass_gate sch s now later).1
            s.persistent_id
            (TemporalBuffer.get sch.buffer s.persistent_id)
            (view sch.queue)
  unfolding pass_gate
  view-pass_gate sch s now later v = ground (
    arith,
    view-enqueue sch s later v,
    view-enqueue
        (record sch { last_enqueued_at = insert str_dec s.persistent_id now sch.last_enqueued_at })
        s later v,
  )

  -- A dispatched sample puts the window of its person among the waiting batches, and that window
  -- ends with the sample. With any other outcome what waits is as it was.
  pub view-ingest :
      (sch : Scheduler Crop) (s : Sample Crop) (now later : ℕ)
      → IsValid sch.queue
      → 0 < sch.buffer.window_size
      → let batch = TemporalBuffer.get (TemporalBuffer.push sch.buffer s) s.persistent_id in
        (view (ingest sch s now later).0.queue
          ≡ after_outcome (ingest sch s now later).1 s.persistent_id batch (view sch.queue))
        × (last? batch ≡ some s)
  unfolding ingest reject log_visible_state
  view-ingest sch s now later v h = (
    ground (
      arith,
      view-pass_gate (record sch { buffer = TemporalBuffer.push sch.buffer s }) s now later v,
    ),
    last?-get-push sch.buffer s h,
  )

  -- The outcome is "dispatched" exactly when the sample meets the gate, its person is not cooling
  -- down, and the queue takes the batch.
  pub ingest-dispatched :
      (sch : Scheduler Crop) (s : Sample Crop) (now later : ℕ)
      → let b = TemporalBuffer.push sch.buffer s in
        ((ingest sch s now later).1 ≡ dispatched) ↔ (
          IsReady sch.config s (TemporalBuffer.depth b s.persistent_id)
          × (0 < sch.config.dispatch_cooldown → is_cooling sch s.persistent_id now ≡ false)
          × ((put_latest sch.queue s.persistent_id (TemporalBuffer.get b s.persistent_id)).1
              ≡ stored))
  unfolding ingest reject pass_gate enqueue
  ingest-dispatched sch s now later =
      let b = TemporalBuffer.push sch.buffer s in
      let gate =
        gate_failure_reasons-IsReady sch.config s (TemporalBuffer.depth b s.persistent_id) in
      (λ h. (gate.0 (ground arith), ground arith, ground arith), λ h. ground (arith, gate.1 h.0))

  -- `ingest` keeps the queue valid, and always feeds the temporal buffer.
  ingest-keeps :
      (sch : Scheduler Crop) (s : Sample Crop) (now later : ℕ)
      → IsValid sch.queue
      → IsValid (ingest sch s now later).0.queue
        × ((ingest sch s now later).0.buffer ≡ TemporalBuffer.push sch.buffer s)
  unfolding ingest reject pass_gate enqueue log_visible_state
  ingest-keeps sch s now later v =
      let b = TemporalBuffer.push sch.buffer s in
      ground (
        arith,
        put_latest-IsValid sch.queue s.persistent_id (TemporalBuffer.get b s.persistent_id) v,
      )
