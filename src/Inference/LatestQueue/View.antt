-- ===== src/Inference/LatestQueue/View.antt =====
-- `_LatestOnlyQueue` against its contract: a dictionary of waiting batches in the order in which
-- their tracks were queued, with a bound on the number of tracks.
use ai_intelligence_theft_de.Base.{
  ◌≤◌, ◌<◌, ◌≡◌, refl, String, true, false, List, [], ◌∷◌, ◌++◌, none, some, arith, str_dec, ite,
  length, if◌then◌else◌,
}
use ai_intelligence_theft_de.Base.Dict.{lookup, insert, remove, holds, lookup-insert, lookup-remove}
use ai_intelligence_theft_de.Inference.LatestQueue.{LatestQueue, discard}

pub holds-append :
    (p q : String) (ps : List String)
    → holds str_dec p (ps ++ q ∷ [])
      ≡ (if holds str_dec p ps then true else holds str_dec p (q ∷ []))
holds-append p q [] = refl
holds-append p q (r ∷ ps) = ground (arith, holds-append p q ps)

pub holds-discard :
    (p q : String) (ps : List String)
    → holds str_dec p (discard q ps) ≡ (ite (str_dec p q) false (holds str_dec p ps))
unfolding discard
holds-discard p q [] = ground arith
holds-discard p q (r ∷ ps) = ground (arith, holds-discard p q ps)

module _ {Batch : Type 0} where
  -- The batches that wait, oldest first.
  unfoldable pub waiting : List (String × Batch) → List String → List (String × Batch)
  waiting latest [] = []
  waiting latest (p ∷ ps) =
      let rest = waiting latest ps in
      elim (lookup str_dec p latest) [ some b ↦ (p, b) ∷ rest | none ↦ rest ]

  unfoldable pub view : LatestQueue Batch → List (String × Batch)
  view q = waiting q.latest q.notify

  -- Every identifier in `notify` stands there once and has a batch.
  abbrev pub Backed : List (String × Batch) → List String → Type 0
  Backed latest [] = Unit
  Backed latest (p ∷ ps) =
      (b : Batch) × (lookup str_dec p latest ≡ some b)
      × (holds str_dec p ps ≡ false)
      × Backed latest ps

  pub record IsValid (q : LatestQueue Batch) : Type 0 where
    pub backed : Backed q.latest q.notify
    pub same_ids : (p : String) → holds str_dec p q.queued ≡ holds str_dec p q.notify
    pub bounded : 0 < q.maxsize → length q.notify ≤ q.maxsize

  -- Writing the batch of a track that does not wait changes nothing that waits.
  pub waiting-insert_absent :
      (p : String) (b : Batch) (latest : List (String × Batch)) (ps : List String)
      → holds str_dec p ps ≡ false
      → waiting (insert str_dec p b latest) ps ≡ waiting latest ps
  unfolding waiting
  waiting-insert_absent p b latest [] h = refl
  waiting-insert_absent p b latest (q ∷ ps) h =
      ground (arith, lookup-insert str_dec p q b latest, waiting-insert_absent p b latest ps)

  -- Of a track that waits, it is an update in place.
  pub waiting-insert_held :
      (p : String) (b : Batch) (latest : List (String × Batch)) (ps : List String)
      → Backed latest ps
      → holds str_dec p ps ≡ true
      → waiting (insert str_dec p b latest) ps ≡ insert str_dec p b (waiting latest ps)
  unfolding waiting insert
  waiting-insert_held p b latest [] v h = ground arith
  waiting-insert_held p b latest (q ∷ ps) v h = ground (
    arith,
    lookup-insert str_dec p q b latest,
    waiting-insert_absent p b latest ps,
    waiting-insert_held p b latest ps v.3,
  )

  pub waiting-append :
      (p : String) (b : Batch) (latest : List (String × Batch)) (ps : List String)
      → Backed latest ps
      → lookup str_dec p latest ≡ some b
      → holds str_dec p ps ≡ false
      → waiting latest (ps ++ p ∷ []) ≡ insert str_dec p b (waiting latest ps)
  unfolding waiting insert
  waiting-append p b latest [] v e h = ground arith
  waiting-append p b latest (q ∷ ps) v e h = ground (arith, waiting-append p b latest ps v.3)

  pub waiting-remove :
      (p : String) (latest : List (String × Batch)) (ps : List String)
      → holds str_dec p ps ≡ false
      → waiting (remove str_dec p latest) ps ≡ waiting latest ps
  unfolding waiting
  waiting-remove p latest [] h = refl
  waiting-remove p latest (q ∷ ps) h =
      ground (arith, lookup-remove str_dec p q latest, waiting-remove p latest ps)

  pub Backed-insert :
      (p : String) (b : Batch) (latest : List (String × Batch)) (ps : List String)
      → Backed latest ps
      → Backed (insert str_dec p b latest) ps
  Backed-insert p b latest [] v = tt
  Backed-insert p b latest (q ∷ ps) v = elim (str_dec q p) [
    | yes e ↦ (
      b,
      ground (arith, lookup-insert str_dec p q b latest),
      v.2,
      Backed-insert p b latest ps v.3,
    )
    | no n ↦ (
      v.0,
      ground (arith, lookup-insert str_dec p q b latest),
      v.2,
      Backed-insert p b latest ps v.3,
    )
  ]

  pub Backed-remove :
      (p : String) (latest : List (String × Batch)) (ps : List String)
      → holds str_dec p ps ≡ false
      → Backed latest ps
      → Backed (remove str_dec p latest) ps
  Backed-remove p latest [] h v = tt
  Backed-remove p latest (q ∷ ps) h v = (
    v.0,
    ground (arith, lookup-remove str_dec p q latest),
    v.2,
    Backed-remove p latest ps (ground arith) v.3,
  )

  pub Backed-append :
      (p : String) (b : Batch) (latest : List (String × Batch)) (ps : List String)
      → lookup str_dec p latest ≡ some b
      → holds str_dec p ps ≡ false
      → Backed latest ps
      → Backed latest (ps ++ p ∷ [])
  Backed-append p b latest [] e h v = (b, e, refl, tt)
  Backed-append p b latest (q ∷ ps) e h v = (
    v.0,
    v.1,
    ground (arith, holds-append q p ps),
    Backed-append p b latest ps e (ground arith) v.3,
  )
