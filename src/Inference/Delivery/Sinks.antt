-- ===== src/Inference/Delivery/Sinks.antt =====
-- What each sink of orchestrator.py is given.
use ai_intelligence_theft_de.Base.{
  ◌≡◌, Bool, true, false, not, List, [], ◌∷◌, ◌++◌, if◌then◌else◌, keep, arith, all,
}
use ai_intelligence_theft_de.Inference.Delivery.{
  Payload, Effect, sends_result, sends_alert, publishes, saves, Sink, websocket, kafka, persistence,
  is_normal, broadcast_ws, publish_kafka, persist, deliver_payload, deliver_all,
}

module _ {ℓ} {P : Type ℓ} where
  abbrev pub results : List (Effect P) → List P
  results [] = []
  results (sends_result p ∷ es) = p ∷ results es
  results (sends_alert p ∷ es) = results es
  results (publishes p ∷ es) = results es
  results (saves p ∷ es) = results es

  abbrev pub publications : List (Effect P) → List P
  publications [] = []
  publications (sends_result p ∷ es) = publications es
  publications (sends_alert p ∷ es) = publications es
  publications (publishes p ∷ es) = p ∷ publications es
  publications (saves p ∷ es) = publications es

  abbrev pub rows : List (Effect P) → List P
  rows [] = []
  rows (sends_result p ∷ es) = rows es
  rows (sends_alert p ∷ es) = rows es
  rows (publishes p ∷ es) = rows es
  rows (saves p ∷ es) = p ∷ rows es

-- A sink other than Kafka.
abbrev pub is_reported : Sink → Bool
is_reported websocket = true
is_reported kafka = false
is_reported persistence = true

module _ {Score : Type 0} (raises : Effect (Payload Score) → Bool) where
  results-deliver :
      (k : Bool) (p : Payload Score) (es : List (Effect (Payload Score)))
      → results ((deliver_payload raises k p).0 ++ es) ≡ p ∷ results es
  unfolding deliver_payload broadcast_ws publish_kafka persist
  results-deliver true p es = ground arith
  results-deliver false p es = ground arith

  publications-deliver :
      (k : Bool) (p : Payload Score) (es : List (Effect (Payload Score)))
      → publications ((deliver_payload raises k p).0 ++ es)
        ≡ (if k then p ∷ publications es else publications es)
  unfolding deliver_payload broadcast_ws publish_kafka persist
  publications-deliver true p es = ground arith
  publications-deliver false p es = ground arith

  rows-deliver :
      (k : Bool) (p : Payload Score) (es : List (Effect (Payload Score)))
      → rows ((deliver_payload raises k p).0 ++ es)
        ≡ (if is_normal p.alert_level then rows es else p ∷ rows es)
  unfolding deliver_payload broadcast_ws publish_kafka persist
  rows-deliver true p es = ground arith
  rows-deliver false p es = ground arith

  failures-deliver :
      (k : Bool) (p : Payload Score) (ss : List Sink)
      → all is_reported ss ≡ true
      → all is_reported ((deliver_payload raises k p).1 ++ ss) ≡ true
  unfolding deliver_payload broadcast_ws publish_kafka persist
  failures-deliver true p ss h = ground arith
  failures-deliver false p ss h = ground arith

  -- A failing sink never costs another one its call, nor one payload another payload's: the results are
  -- broadcast for all payloads in order, all are published if there is a publisher, exactly the ones
  -- that are not normal are saved, and a failure of the publisher is never reported.
  pub deliver_all-reaches :
      (has_kafka : Bool) (ps : List (Payload Score))
      → (results (deliver_all raises has_kafka ps).0 ≡ ps)
        × (publications (deliver_all raises has_kafka ps).0 ≡ (if has_kafka then ps else []))
        × (rows (deliver_all raises has_kafka ps).0 ≡ keep (λ p. not (is_normal p.alert_level)) ps)
        × (all is_reported (deliver_all raises has_kafka ps).1 ≡ true)
  unfolding deliver_all
  deliver_all-reaches k [] = ground arith
  deliver_all-reaches k (p ∷ ps) = ground (
    arith,
    deliver_all-reaches k ps,
    results-deliver k p (deliver_all raises k ps).0,
    publications-deliver k p (deliver_all raises k ps).0,
    rows-deliver k p (deliver_all raises k ps).0,
    failures-deliver k p (deliver_all raises k ps).1,
  )
