-- ===== src/Inference/Ingress/Routing.antt =====
-- Which schedulers an update of the tracks reaches, and with what.
use ai_intelligence_theft_de.Base.{
  ℕ, ◌≡◌, refl, String, List, [], ◌∷◌, Option, none, some, arith, str_dec, ite, Option-cases, inl,
  inr,
}
use ai_intelligence_theft_de.Base.Dict.{lookup, lookup-insert}
use ai_intelligence_theft_de.Inference.Contracts.{Sample}
use ai_intelligence_theft_de.Inference.Scheduler.{Scheduler, ingest}
use ai_intelligence_theft_de.Inference.Scheduler.Cooldown.{ingest_all}
use ai_intelligence_theft_de.Inference.Manager.{Manager, ingest_sample, is_camera_enabled}
use ai_intelligence_theft_de.Inference.Ingress.{Track, Publisher, sample_of, ingest_each, publish}

module _ {Pixel : Type 0} where
  -- The samples of the tracks of a frame, with their clock readings; none without a frame.
  abbrev pub samples :
      String
      → String
      → Option (List (List Pixel))
      → ℕ
      → List (Track × ℕ × ℕ)
      → List (Sample (Option (List (List Pixel))) × ℕ × ℕ)
  samples camera_id stream_name none now tracks = []
  samples camera_id stream_name (some frame) now [] = []
  samples camera_id stream_name (some frame) now ((t, clock, later) ∷ tracks) =
      (sample_of camera_id stream_name frame now t, clock, later)
      ∷ samples camera_id stream_name (some frame) now tracks

module _ {Crop : Type 0} where
  -- A scheduler, if there is one, after it was given the samples one by one.
  abbrev pub given : Option (Scheduler Crop) → List (Sample Crop × ℕ × ℕ) → Option (Scheduler Crop)
  given none calls = none
  given (some scheduler) calls = some (ingest_all scheduler calls)

  abbrev given_one : Option (Scheduler Crop) → Sample Crop → ℕ → ℕ → Option (Scheduler Crop)
  given_one none s clock later = none
  given_one (some scheduler) s clock later = some (ingest scheduler s clock later).0

  given-cons :
      (o : Option (Scheduler Crop)) (s : Sample Crop) (clock later : ℕ)
      (calls : List (Sample Crop × ℕ × ℕ))
      → given (given_one o s clock later) calls ≡ given o ((s, clock, later) ∷ calls)
  unfolding ingest_all
  given-cons none s clock later calls = refl
  given-cons (some scheduler) s clock later calls = refl

  given-nil : (o : Option (Scheduler Crop)) → given o [] ≡ o
  unfolding ingest_all
  given-nil none = refl
  given-nil (some scheduler) = refl

module _ {Crop Score : Type 0} where
  lookup-ingest_sample :
      (m : Manager Crop Score) (s : Sample Crop) (clock later : ℕ) (q : String)
      → lookup str_dec q (ingest_sample m s clock later).schedulers
        ≡ ite
            (str_dec q s.camera_id)
            (given_one (lookup str_dec q m.schedulers) s clock later)
            (lookup str_dec q m.schedulers)
  unfolding ingest_sample
  lookup-ingest_sample m s clock later q =
      elim (Option-cases (lookup str_dec s.camera_id m.schedulers)) [
        | inl n ↦ ground arith
        | inr found ↦ ground (
          arith,
          lookup-insert str_dec s.camera_id q (ingest found.0 s clock later).0 m.schedulers,
        )
      ]

module _ {Pixel Score : Type 0} (camera_id stream_name : String) (now : ℕ) where
  lookup-ingest_each :
      (frame : List (List Pixel)) (m : Manager (Option (List (List Pixel))) Score)
      (tracks : List (Track × ℕ × ℕ)) (q : String)
      → lookup str_dec q (ingest_each camera_id stream_name frame now m tracks).schedulers
        ≡ ite
            (str_dec q camera_id)
            (given
              (lookup str_dec q m.schedulers)
              (samples camera_id stream_name (some frame) now tracks))
            (lookup str_dec q m.schedulers)
  unfolding ingest_each sample_of
  lookup-ingest_each frame m [] q = ground (arith, given-nil (lookup str_dec q m.schedulers))
  lookup-ingest_each frame m ((t, clock, later) ∷ tracks) q =
      let s = sample_of camera_id stream_name frame now t in
      ground (
        arith,
        lookup-ingest_each frame (ingest_sample m s clock later) tracks q,
        lookup-ingest_sample m s clock later q,
        given-cons (lookup str_dec q m.schedulers) s clock later
            (samples camera_id stream_name (some frame) now tracks),
      )

  -- An update of a camera's tracks gives that camera's scheduler, if it has one, the samples of the
  -- tracks one by one, in their order, and none if the frame is missing. No other camera's scheduler
  -- changes.
  pub lookup-publish :
      (p : Publisher) (m : Manager (Option (List (List Pixel))) Score)
      (tracks : List (Track × ℕ × ℕ)) (frame : Option (List (List Pixel))) (logged : ℕ) (q : String)
      → lookup str_dec q (publish p m camera_id stream_name tracks frame now logged).1.schedulers
        ≡ ite
            (str_dec q camera_id)
            (given (lookup str_dec q m.schedulers) (samples camera_id stream_name frame now tracks))
            (lookup str_dec q m.schedulers)
  unfolding publish is_camera_enabled
  lookup-publish p m tracks none logged q =
      ground (arith, given-nil (lookup str_dec q m.schedulers))
  lookup-publish p m [] (some frame) logged q =
      ground (arith, given-nil (lookup str_dec q m.schedulers))
  lookup-publish p m (t ∷ tracks) (some frame) logged q =
      ground (arith, lookup-ingest_each frame m (t ∷ tracks) q)
