-- ===== src/Inference/TemporalBuffer.antt =====
-- temporal_buffer.py: `TemporalBufferService`, a rolling window of samples for each person.
-- Times are microseconds, and `now - t > s` on them is written `t + s < now`.
pub mod Window
pub mod Segments
use ai_intelligence_theft_de.Base.{
  ℕ, suc, ◌+◌, String, Bool, ◌||◌, List, [], ◌∷◌, ◌++◌, Option, none, some, str_dec, same, ltb,
  length, drop, or_else, if◌then◌else◌,
}
use ai_intelligence_theft_de.Base.Dict.{lookup, insert, remove, remove_all, keys_where}
use ai_intelligence_theft_de.Inference.Contracts.{Sample}

pub record TemporalBuffer (Crop : Type 0) : Type 0 where
  pub window_size : ℕ
  pub gap_reset : ℕ
  pub buffers : List (String × List (Sample Crop))
  pub last_seen : List (String × ℕ)

-- `append` on a `deque(maxlen=w)`: the oldest entry leaves a full deque.
unfoldable pub deque_append {ℓ} : {A : Type ℓ} → ℕ → List A → A → List A
deque_append w xs x = let ys = xs ++ x ∷ [] in if ltb w (length ys) then drop 1 ys else ys

module _ {Crop : Type 0} where
  unfoldable pub init : ℕ → ℕ → TemporalBuffer Crop
  init window_size gap_reset = record {
    window_size = window_size;
    gap_reset = gap_reset;
    buffers = [];
    last_seen = [];
  }

  -- The test of `push` for a person last seen at `t`.
  abbrev pub is_reset : ℕ → ℕ → Sample Crop → Bool
  is_reset gap_reset t s = ltb (t + gap_reset) s.sampled_at || same s.persistent_id_state "pending"

  unfoldable pub reset_on_gap :
      TemporalBuffer Crop → Sample Crop → List (String × List (Sample Crop))
  reset_on_gap b s = elim (lookup str_dec s.persistent_id b.last_seen) [
    | none ↦ b.buffers
    | some t ↦
        if is_reset b.gap_reset t s then remove str_dec s.persistent_id b.buffers else b.buffers
  ]

  unfoldable pub push : TemporalBuffer Crop → Sample Crop → TemporalBuffer Crop
  unfolding reset_on_gap
  push b s =
      let buffers = reset_on_gap b s in
      let window = or_else (lookup str_dec s.persistent_id buffers) [] in
      record b {
        buffers = insert str_dec s.persistent_id (deque_append b.window_size window s) buffers;
        last_seen = insert str_dec s.persistent_id s.sampled_at b.last_seen;
      }

  unfoldable pub get : TemporalBuffer Crop → String → List (Sample Crop)
  get b pid = or_else (lookup str_dec pid b.buffers) []

  unfoldable pub depth : TemporalBuffer Crop → String → ℕ
  depth b pid = length (or_else (lookup str_dec pid b.buffers) [])

  unfoldable pub reset : TemporalBuffer Crop → String → TemporalBuffer Crop
  reset b pid = record b {
    buffers = remove str_dec pid b.buffers;
    last_seen = remove str_dec pid b.last_seen;
  }

  -- `now` is the wall clock.
  unfoldable pub evict_stale : TemporalBuffer Crop → ℕ → ℕ → TemporalBuffer Crop
  evict_stale b cutoff now =
      let stale = keys_where (λ t. ltb (t + cutoff) now) b.last_seen in
      record b {
        buffers = remove_all str_dec stale b.buffers;
        last_seen = remove_all str_dec stale b.last_seen;
      }
