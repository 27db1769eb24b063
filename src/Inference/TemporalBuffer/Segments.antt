-- ===== src/Inference/TemporalBuffer/Segments.antt =====
-- What `TemporalBufferService` keeps, against a specification that forgets nothing: of each person
-- the samples since the last reset.
use ai_intelligence_theft_de.Base.{
  ℕ, ◌+◌, ◌≤◌, ◌<◌, ◌≡◌, refl, sym, take_right_all, String, List, [], ◌∷◌, ◌++◌, Option, none, some,
  arith, str_dec, ite, ltb, length, length-take_right, take_right, or_else, if◌then◌else◌, last?,
}
use ai_intelligence_theft_de.Base.Dict.{
  lookup, keys_where, Distinct, lookup-insert, lookup-remove, lookup-remove_all, insert-Distinct,
  remove-Distinct, remove_all-Distinct, holds-keys_where,
}
use ai_intelligence_theft_de.Inference.Contracts.{Sample}
use ai_intelligence_theft_de.Inference.TemporalBuffer.Window.{
  deque_append-take_right, last?-deque_append,
}
use ai_intelligence_theft_de.Inference.TemporalBuffer.{
  TemporalBuffer, is_reset, reset_on_gap, deque_append, init, push, get, depth, reset, evict_stale,
}

pub data Op (Crop : Type 0) : Type 0 where
  pushes : Sample Crop → Op Crop
  resets : String → Op Crop
  evicts : ℕ → ℕ → Op Crop

module _ {Crop : Type 0} where
  unfoldable pub apply : TemporalBuffer Crop → Op Crop → TemporalBuffer Crop
  apply b (pushes s) = push b s
  apply b (resets pid) = reset b pid
  apply b (evicts cutoff now) = evict_stale b cutoff now

  unfoldable pub run : TemporalBuffer Crop → List (Op Crop) → TemporalBuffer Crop
  run b [] = b
  run b (o ∷ os) = run (apply b o) os

-- When a person was last seen, and every sample since the last reset.
abbrev pub Track : Type 0 → Type 0
Track Crop = Option (ℕ × List (Sample Crop))

module _ {Crop : Type 0} where
  abbrev segment : Track Crop → List (Sample Crop)
  segment none = []
  segment (some (t, seg)) = seg

  unfoldable pub extend : ℕ → Track Crop → Sample Crop → List (Sample Crop)
  extend gap none s = s ∷ []
  extend gap (some (t, seg)) s = if is_reset gap t s then s ∷ [] else seg ++ s ∷ []

  unfoldable pub forget : ℕ → ℕ → Track Crop → Track Crop
  forget cutoff now none = none
  forget cutoff now (some (t, seg)) = if ltb (t + cutoff) now then none else some (t, seg)

  unfoldable pub note : ℕ → String → Track Crop → Op Crop → Track Crop
  note gap pid tr (pushes s) =
      ite (str_dec pid s.persistent_id) (some (s.sampled_at, extend gap tr s)) tr
  note gap pid tr (resets p) = ite (str_dec pid p) none tr
  note gap pid tr (evicts cutoff now) = forget cutoff now tr

  unfoldable pub notes : ℕ → String → Track Crop → List (Op Crop) → Track Crop
  notes gap pid tr [] = tr
  notes gap pid tr (o ∷ os) = notes gap pid (note gap pid tr o) os

  abbrev seen_at : Track Crop → Option ℕ
  seen_at none = none
  seen_at (some (t, seg)) = some t

  abbrev kept : ℕ → Track Crop → Option (List (Sample Crop))
  kept w none = none
  kept w (some (t, seg)) = some (take_right w seg)

  -- The buffer holds the end of the segment.
  abbrev Shows : TemporalBuffer Crop → String → Track Crop → Type 0
  Shows b pid tr =
      (lookup str_dec pid b.last_seen ≡ seen_at tr)
      × (lookup str_dec pid b.buffers ≡ kept b.window_size tr)

  push-Shows :
      (b : TemporalBuffer Crop) (pid : String) (tr : Track Crop) (s : Sample Crop)
      → Shows b pid tr
      → Shows (push b s) pid (note b.gap_reset pid tr (pushes s))
  unfolding push note extend
  push-Shows b pid none s h = ground (
    arith,
    lookup-insert str_dec s.persistent_id pid s.sampled_at b.last_seen,
    lookup-insert str_dec s.persistent_id pid
        (deque_append b.window_size (or_else (lookup str_dec s.persistent_id (reset_on_gap b s)) [])
          s)
        (reset_on_gap b s),
    lookup-remove str_dec s.persistent_id pid b.buffers,
    deque_append-take_right b.window_size [] s,
  )
  push-Shows b pid (some (t, seg)) s h = ground (
    arith,
    lookup-insert str_dec s.persistent_id pid s.sampled_at b.last_seen,
    lookup-insert str_dec s.persistent_id pid
        (deque_append b.window_size (or_else (lookup str_dec s.persistent_id (reset_on_gap b s)) [])
          s)
        (reset_on_gap b s),
    lookup-remove str_dec s.persistent_id pid b.buffers,
    lookup-remove str_dec s.persistent_id s.persistent_id b.buffers,
    deque_append-take_right b.window_size [] s,
    deque_append-take_right b.window_size seg s,
  )

  reset-Shows :
      (b : TemporalBuffer Crop) (pid p : String) (tr : Track Crop)
      → Shows b pid tr
      → Shows (reset b p) pid (note b.gap_reset pid tr (resets p))
  unfolding reset note
  reset-Shows b pid p tr h =
      ground (arith, lookup-remove str_dec p pid b.last_seen, lookup-remove str_dec p pid b.buffers)

  evict_stale-Shows :
      (b : TemporalBuffer Crop) (pid : String) (tr : Track Crop) (cutoff now : ℕ)
      → Distinct str_dec b.last_seen
      → Shows b pid tr
      → Shows (evict_stale b cutoff now) pid (forget cutoff now tr)
  unfolding evict_stale forget
  evict_stale-Shows b pid none cutoff now d h =
      let stale : List String = keys_where (λ t. ltb (t + cutoff) now) b.last_seen in
      ground (
        arith,
        lookup-remove_all str_dec pid stale b.last_seen,
        lookup-remove_all str_dec pid stale b.buffers,
      )
  evict_stale-Shows b pid (some (t, seg)) cutoff now d h =
      let stale : List String = keys_where (λ t. ltb (t + cutoff) now) b.last_seen in
      ground (
        arith,
        lookup-remove_all str_dec pid stale b.last_seen,
        lookup-remove_all str_dec pid stale b.buffers,
        holds-keys_where str_dec (λ (t : ℕ). ltb (t + cutoff) now) pid t b.last_seen d h.0,
      )

  apply-Shows :
      (b : TemporalBuffer Crop) (pid : String) (tr : Track Crop) (o : Op Crop)
      → Distinct str_dec b.last_seen
      → Shows b pid tr
      → Shows (apply b o) pid (note b.gap_reset pid tr o)
  unfolding apply note
  apply-Shows b pid tr (pushes s) d h = push-Shows b pid tr s h
  apply-Shows b pid tr (resets p) d h = reset-Shows b pid p tr h
  apply-Shows b pid tr (evicts cutoff now) d h = evict_stale-Shows b pid tr cutoff now d h

  apply-Distinct :
      (b : TemporalBuffer Crop) (o : Op Crop)
      → Distinct str_dec b.last_seen
      → Distinct str_dec (apply b o).last_seen
  unfolding apply push reset evict_stale
  apply-Distinct b (pushes s) d = insert-Distinct str_dec s.persistent_id s.sampled_at b.last_seen d
  apply-Distinct b (resets p) d = remove-Distinct str_dec p b.last_seen d
  apply-Distinct b (evicts cutoff now) d =
      remove_all-Distinct str_dec (keys_where (λ t. ltb (t + cutoff) now) b.last_seen) b.last_seen d

  apply-config :
      (b : TemporalBuffer Crop) (o : Op Crop)
      → ((apply b o).window_size ≡ b.window_size) × ((apply b o).gap_reset ≡ b.gap_reset)
  unfolding apply push reset evict_stale
  apply-config b (pushes s) = (refl, refl)
  apply-config b (resets p) = (refl, refl)
  apply-config b (evicts cutoff now) = (refl, refl)

  run-Shows :
      (os : List (Op Crop)) (b : TemporalBuffer Crop) (gap w : ℕ) (pid : String) (tr : Track Crop)
      → b.gap_reset ≡ gap
      → b.window_size ≡ w
      → Distinct str_dec b.last_seen
      → Shows b pid tr
      → lookup str_dec pid (run b os).buffers ≡ kept w (notes gap pid tr os)
  unfolding run notes
  run-Shows [] b gap w pid tr g e d h = rw (← e) h.1
  run-Shows (o ∷ os) b gap w pid tr g e d h =
      run-Shows os (apply b o) gap w pid (note gap pid tr o) (ground (arith, apply-config b o))
        (ground (arith, apply-config b o)) (apply-Distinct b o d)
        (rw (← g) (apply-Shows b pid tr o d h))

  notes-run :
      (os : List (Op Crop)) (w gap : ℕ) (pid : String)
      → lookup str_dec pid (run (init w gap) os).buffers ≡ kept w (notes gap pid none os)
  unfolding init lookup
  notes-run os w gap pid = run-Shows os (init w gap) gap w pid none refl refl tt (refl, refl)

  kept-segment : (w : ℕ) (tr : Track Crop) → or_else (kept w tr) [] ≡ take_right w (segment tr)
  kept-segment w none = sym (take_right_all w [] (omega arith))
  kept-segment w (some (t, seg)) = refl

  length-kept : (w : ℕ) (tr : Track Crop) → length (or_else (kept w tr) []) ≤ w
  length-kept w none = omega arith
  length-kept w (some (t, seg)) = omega (arith, length-take_right w seg)

  -- After any sequence of pushes, resets and evictions the snapshot of a person is the last
  -- `window_size` samples of that person's current segment: those pushed since the last push that
  -- came after a gap longer than `gap_reset` or in state "pending", the last reset or the last
  -- eviction. What was pushed for other persons does not matter.
  pub get-run :
      (os : List (Op Crop)) (w gap : ℕ) (pid : String)
      → get (run (init w gap) os) pid ≡ take_right w (segment (notes gap pid none os))
  unfolding get
  get-run os w gap pid = rw (notes-run os w gap pid) (kept-segment w (notes gap pid none os))

  -- The depth never exceeds the window.
  depth-run-le :
      (os : List (Op Crop)) (w gap : ℕ) (pid : String) → depth (run (init w gap) os) pid ≤ w
  unfolding depth
  depth-run-le os w gap pid = rw (notes-run os w gap pid) (length-kept w (notes gap pid none os))

  -- After `push` the last frame of the person's window is the sample itself, if windows hold any.
  pub last?-get-push :
      (b : TemporalBuffer Crop) (s : Sample Crop)
      → 0 < b.window_size
      → last? (get (push b s) s.persistent_id) ≡ some s
  unfolding get push
  last?-get-push b s h =
      let old : List (Sample Crop) =
        or_else (lookup str_dec s.persistent_id (reset_on_gap b s)) [] in
      ground (
        arith,
        lookup-insert str_dec s.persistent_id s.persistent_id (deque_append b.window_size old s)
            (reset_on_gap b s),
        last?-deque_append b.window_size old s,
      )
