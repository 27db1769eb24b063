-- ===== src/Tests/Inference.antt =====
-- The theorems on the inference plane at concrete inputs.
use ai_intelligence_theft_de.Base.{
  ℕ, ◌+◌, ◌≤◌, ◌<◌, ◌≡◌, ◌≢◌, ◌↔◌, refl, String, false, List, [], ◌∷◌, some, arith, str_dec, last?,
  length,
}
use ai_intelligence_theft_de.Base.Int.{pos}
use ai_intelligence_theft_de.Base.Dict.{lookup, insert, holds}
use ai_intelligence_theft_de.Inference.Contracts.{Sample}
use ai_intelligence_theft_de.Inference.TemporalBuffer
use ai_intelligence_theft_de.Inference.TemporalBuffer.{TemporalBuffer}
use ai_intelligence_theft_de.Inference.TemporalBuffer.Segments
use ai_intelligence_theft_de.Inference.TemporalBuffer.Segments.{pushes, resets, evicts}
use ai_intelligence_theft_de.Inference.LatestQueue
use ai_intelligence_theft_de.Inference.LatestQueue.{stored, queue_full, LatestQueue}
use ai_intelligence_theft_de.Inference.LatestQueue.View
use ai_intelligence_theft_de.Inference.LatestQueue.Contract
use ai_intelligence_theft_de.Inference.LatestQueue.Contract.{puts, gets}
use ai_intelligence_theft_de.Inference.Scheduler
use ai_intelligence_theft_de.Inference.Scheduler.{Scheduler, Outcome, dispatched, dropped, cooling}
use ai_intelligence_theft_de.Inference.Scheduler.Gate.{IsReady}
use ai_intelligence_theft_de.Inference.Scheduler.Dispatch
use ai_intelligence_theft_de.Inference.Scheduler.Cooldown
use ai_intelligence_theft_de.Inference.Manager.{config_of}

abbrev sample_at : String → ℕ → Sample ℕ
sample_at pid t = record {
  camera_id = "cam";
  stream_name = "door";
  local_track_id = pid;
  persistent_id = pid;
  sampled_at = t;
  left = pos 0;
  top = pos 0;
  width = pos 40;
  height = pos 80;
  crop = t;
  age_frames = 3;
  consecutive_hits = 3;
  frames_since_update = 0;
  persistent_id_state = "assigned";
}

abbrev history : List (Segments.Op ℕ)
history =
    pushes (sample_at "p" 1)
    ∷ pushes (sample_at "q" 2)
    ∷ pushes (sample_at "p" 3)
    ∷ pushes (sample_at "p" 4)
    ∷ []

get-run_example :
    TemporalBuffer.get (Segments.run (TemporalBuffer.init 2 10) history) "p"
    ≡ sample_at "p" 3 ∷ sample_at "p" 4 ∷ []
unfolding Segments.notes Segments.note Segments.extend str_dec
get-run_example = Segments.get-run history 2 10 "p"

abbrev batches : List (Contract.Call ℕ)
batches = puts "p" 1 ∷ puts "q" 2 ∷ puts "p" 3 ∷ gets ∷ []

run-IsValid_example : View.IsValid (Contract.run (LatestQueue.init 2) batches)
run-IsValid_example = Contract.run-IsValid 2 batches

abbrev one_waits : LatestQueue ℕ
one_waits = (LatestQueue.put_latest (LatestQueue.init 1) "p" 1).0

one_waits-IsValid : View.IsValid one_waits
one_waits-IsValid = Contract.put_latest-IsValid (LatestQueue.init 1) "p" 1 (Contract.init-IsValid 1)

-- The queue is full, so another track is refused.
view-put_latest_example :
    (View.view (LatestQueue.put_latest one_waits "q" 2).0 ≡ ("p", 1) ∷ [])
    × (((LatestQueue.put_latest one_waits "q" 2).1 ≡ queue_full) ↔ (
        (holds str_dec "q" one_waits.queued ≡ false)
        × (0 < one_waits.maxsize)
        × (one_waits.maxsize ≤ length one_waits.notify)))
unfolding LatestQueue.put_latest LatestQueue.init View.view View.waiting str_dec insert lookup
view-put_latest_example = Contract.view-put_latest one_waits "q" 2 one_waits-IsValid

get-Pops_example : Contract.Pops (View.view one_waits) (LatestQueue.get one_waits)
get-Pops_example = Contract.get-Pops one_waits one_waits-IsValid

abbrev fresh : Scheduler ℕ
fresh = Scheduler.init (config_of "cam" "vjepa_probe")

fresh-IsValid : View.IsValid fresh.queue
unfolding Scheduler.init config_of
fresh-IsValid = Contract.init-IsValid 64

ingest-dispatched_example : ((Scheduler.ingest fresh (sample_at "p" 1) 5 6).1 ≡ dispatched) ↔ (
    IsReady fresh.config
      (sample_at "p" 1)
      (TemporalBuffer.depth (TemporalBuffer.push fresh.buffer (sample_at "p" 1)) "p")
    × (0 < fresh.config.dispatch_cooldown → Scheduler.is_cooling fresh "p" 5 ≡ false)
    × ((LatestQueue.put_latest fresh.queue "p"
          (TemporalBuffer.get (TemporalBuffer.push fresh.buffer (sample_at "p" 1)) "p")).1
        ≡ stored))
ingest-dispatched_example = Dispatch.ingest-dispatched fresh (sample_at "p" 1) 5 6

view-ingest_example :
    (View.view (Scheduler.ingest fresh (sample_at "p" 1) 5 6).0.queue
      ≡ Dispatch.after_outcome
          (Scheduler.ingest fresh (sample_at "p" 1) 5 6).1
          "p"
          (TemporalBuffer.get (TemporalBuffer.push fresh.buffer (sample_at "p" 1)) "p")
          (View.view fresh.queue))
    × (last? (TemporalBuffer.get (TemporalBuffer.push fresh.buffer (sample_at "p" 1)) "p")
        ≡ some (sample_at "p" 1))
unfolding Scheduler.init TemporalBuffer.init config_of
view-ingest_example = Dispatch.view-ingest fresh (sample_at "p" 1) 5 6 fresh-IsValid (omega arith)

abbrev first_call : Scheduler ℕ × Outcome
first_call = Scheduler.ingest fresh (sample_at "p" 1) 5 6

first_dispatched : first_call.1 ≡ dispatched
unfolding Scheduler.ingest Scheduler.gate_failure_reasons Scheduler.pass_gate Scheduler.enqueue
    Scheduler.init TemporalBuffer.init TemporalBuffer.push TemporalBuffer.depth TemporalBuffer.get
    config_of LatestQueue.init LatestQueue.put_latest str_dec insert TemporalBuffer.deque_append
    lookup
first_dispatched = refl

abbrev between : List (Sample ℕ × ℕ × ℕ)
between = (sample_at "q" 2, 7, 8) ∷ []

second_dispatched :
    (Scheduler.ingest (Cooldown.ingest_all first_call.0 between) (sample_at "p" 3) 800000 800001).1
    ≡ dispatched
unfolding Cooldown.ingest_all Scheduler.ingest Scheduler.gate_failure_reasons Scheduler.pass_gate
    Scheduler.enqueue Scheduler.init TemporalBuffer.init TemporalBuffer.push TemporalBuffer.depth
    TemporalBuffer.get config_of LatestQueue.init LatestQueue.put_latest str_dec insert
    TemporalBuffer.deque_append Scheduler.log_visible_state lookup Scheduler.VisibleState-discrete
second_dispatched = refl

dispatch_spacing_example : 5 + 750000 ≤ 800000
unfolding Scheduler.init config_of
dispatch_spacing_example =
    Cooldown.dispatch_spacing fresh (sample_at "p" 1) (sample_at "p" 3) 5 6 800000 800001 between
      (omega arith) refl first_dispatched second_dispatched

-- A queue of one batch, which another person's batch fills.
abbrev crowded : Scheduler ℕ
crowded =
    (Scheduler.ingest
      (Scheduler.init (record (config_of "cam" "vjepa_probe") { ingress_queue_maxsize = 1 }))
      (sample_at "q" 1) 1 2).0

drops : (Scheduler.ingest crowded (sample_at "p" 1) 5 6).1 ≡ dropped
unfolding Scheduler.ingest Scheduler.gate_failure_reasons Scheduler.pass_gate Scheduler.enqueue
    Scheduler.init TemporalBuffer.init TemporalBuffer.push TemporalBuffer.depth TemporalBuffer.get
    config_of LatestQueue.init LatestQueue.put_latest str_dec insert TemporalBuffer.deque_append
    Scheduler.log_visible_state lookup
drops = refl

dropped_cools_example :
    (Scheduler.ingest
      (Cooldown.ingest_all (Scheduler.ingest crowded (sample_at "p" 1) 5 6).0 between)
      (sample_at "p" 2)
      9
      9).1
    ≢ dispatched
unfolding Scheduler.ingest Scheduler.gate_failure_reasons Scheduler.pass_gate Scheduler.enqueue
    Scheduler.init TemporalBuffer.init TemporalBuffer.push TemporalBuffer.depth TemporalBuffer.get
    config_of LatestQueue.init LatestQueue.put_latest str_dec insert TemporalBuffer.deque_append
    Scheduler.log_visible_state lookup
dropped_cools_example =
    Cooldown.dropped_cools crowded (sample_at "p" 1) (sample_at "p" 2) 5 6 9 9 between drops refl
      (omega arith) (omega arith)
