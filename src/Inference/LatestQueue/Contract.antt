-- ===== src/Inference/LatestQueue/Contract.antt =====
-- The calls of `_LatestOnlyQueue` on its invariant and on the batches that wait.
use ai_intelligence_theft_de.Base.{
  ℕ, ◌≤◌, ◌<◌, ◌≡◌, refl, subst, ◌⊎◌, inl, inr, ◌↔◌, String, false, List, [], ◌∷◌, Option, none,
  some, arith, str_dec, length, length-append,
}
use ai_intelligence_theft_de.Base.Dict.{insert, holds, lookup-insert}
use ai_intelligence_theft_de.Inference.LatestQueue.View.{
  waiting, view, Backed, IsValid, holds-append, holds-discard, waiting-insert_absent,
  waiting-insert_held, waiting-append, waiting-remove, Backed-insert, Backed-remove, Backed-append,
}
use ai_intelligence_theft_de.Inference.LatestQueue.{
  LatestQueue, stored, queue_full, init, put_latest, get_from, get,
}

module _ {Batch : Type 0} where
  pub init-IsValid : (maxsize : ℕ) → IsValid (init {Batch = Batch} maxsize)
  unfolding init
  init-IsValid maxsize = record { backed = tt; same_ids = λ p. refl; bounded = λ h. omega arith }

  pub put_latest-IsValid :
      (q : LatestQueue Batch) (pid : String) (b : Batch)
      → IsValid q
      → IsValid (put_latest q pid b).0
  unfolding put_latest
  put_latest-IsValid q pid b v = record {
    backed = ground (
      arith,
      v.same_ids pid,
      lookup-insert str_dec pid pid b q.latest,
      Backed-insert pid b q.latest q.notify v.backed,
      Backed-append pid b (insert str_dec pid b q.latest) q.notify,
    );
    same_ids = λ p. ground (arith, v.same_ids p, v.same_ids pid, holds-append p pid q.notify);
    bounded = ground (arith, v.bounded, length-append q.notify (pid ∷ []));
  }

  -- A track that waits, or fits, is written into the dictionary of waiting batches, in place or at
  -- the end; the call fails exactly if the track is new and the queue is full, and then what
  -- waits is as it was.
  pub view-put_latest :
      (q : LatestQueue Batch) (pid : String) (b : Batch)
      → IsValid q
      → (view (put_latest q pid b).0 ≡ elim (put_latest q pid b).1 [
        | stored ↦ insert str_dec pid b (view q)
        | queue_full ↦ view q
      ])
        × (((put_latest q pid b).1 ≡ queue_full) ↔ (
            (holds str_dec pid q.queued ≡ false) × (0 < q.maxsize) × (q.maxsize ≤ length q.notify)))
  unfolding put_latest view
  view-put_latest q pid b v = (
    ground (
      arith,
      v.same_ids pid,
      lookup-insert str_dec pid pid b q.latest,
      waiting-insert_held pid b q.latest q.notify v.backed,
      waiting-insert_absent pid b q.latest q.notify,
      Backed-insert pid b q.latest q.notify v.backed,
      waiting-append pid b (insert str_dec pid b q.latest) q.notify,
    ),
    (ground arith, ground arith),
  )

  abbrev pub Pops : List (String × Batch) → LatestQueue Batch × Option Batch → Type 0
  Pops xs r =
      ((xs ≡ []) × (r.1 ≡ none))
      ⊎ ((p : String) × (b : Batch) × (xs ≡ (p, b) ∷ view r.0) × (r.1 ≡ some b))

  get_from-Pops :
      (q : LatestQueue Batch) (ps : List String)
      → Backed q.latest ps
      → Pops (waiting q.latest ps) (get_from q ps)
  unfolding get_from view waiting
  get_from-Pops q [] v = inl (refl, refl)
  get_from-Pops q (p ∷ ps) v =
      inr (p, v.0, ground (arith, waiting-remove p q.latest ps v.2), ground arith)

  -- `get` hands out the batch that waits longest, as it was last written, and takes it off; it
  -- blocks only if nothing waits.
  pub get-Pops : (q : LatestQueue Batch) → IsValid q → Pops (view q) (get q)
  unfolding get view
  get-Pops q v = get_from-Pops q q.notify v.backed

  get_from-IsValid :
      (q : LatestQueue Batch) (ps : List String)
      → q.notify ≡ ps
      → IsValid q
      → IsValid (get_from q ps).0
  unfolding get_from
  get_from-IsValid q [] e v = record {
    backed = tt;
    same_ids = λ p. ground (arith, v.same_ids p);
    bounded = λ h. omega arith;
  }
  get_from-IsValid q (p ∷ ps) e v =
      let w : Backed q.latest (p ∷ ps) = subst (Backed q.latest) e v.backed in
      rw (w.1, get_from)
        (record {
          backed = Backed-remove p q.latest ps w.2 w.3;
          same_ids = λ r. ground (arith, v.same_ids r, holds-discard r p q.queued);
          bounded = λ h. ground (arith, v.bounded h);
        })

  pub get-IsValid : (q : LatestQueue Batch) → IsValid q → IsValid (get q).0
  unfolding get
  get-IsValid q v = get_from-IsValid q q.notify refl v

pub data Call (Batch : Type 0) : Type 0 where
  puts : String → Batch → Call Batch
  gets : Call Batch

module _ {Batch : Type 0} where
  unfoldable pub step : LatestQueue Batch → Call Batch → LatestQueue Batch
  step q (puts pid b) = (put_latest q pid b).0
  step q gets = (get q).0

  unfoldable pub run : LatestQueue Batch → List (Call Batch) → LatestQueue Batch
  run q [] = q
  run q (c ∷ cs) = run (step q c) cs

  run_from-IsValid :
      (q : LatestQueue Batch) (cs : List (Call Batch)) → IsValid q → IsValid (run q cs)
  unfolding run step
  run_from-IsValid q [] v = v
  run_from-IsValid q (puts pid b ∷ cs) v =
      run_from-IsValid (put_latest q pid b).0 cs (put_latest-IsValid q pid b v)
  run_from-IsValid q (gets ∷ cs) v = run_from-IsValid (get q).0 cs (get-IsValid q v)

  -- After any history of calls the set of queued tracks and the notifications agree, each track
  -- is notified once and has a batch, and no more tracks wait than `maxsize` allows.
  pub run-IsValid : (maxsize : ℕ) (cs : List (Call Batch)) → IsValid (run (init maxsize) cs)
  run-IsValid maxsize cs = run_from-IsValid (init maxsize) cs (init-IsValid maxsize)
