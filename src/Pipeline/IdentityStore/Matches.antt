-- ===== src/Pipeline/IdentityStore/Matches.antt =====
-- `_parse_batch_results` of identity/milvus_store.py, against the requests and their results.
use ai_intelligence_theft_de.Base.{
  sym, subst, or_else, Bool-cases, if◌then◌else◌, true, ◌↔◌, Option-cases, inl, inr, ℕ, String,
  Bool, false, List, [], ◌∷◌, Option, none, some, str_dec, ite, ◌≡◌, refl, ap, arith, length, suc,
  first_some, map_some,
}
use ai_intelligence_theft_de.Base.Dict.{holds}
use ai_intelligence_theft_de.Pipeline.Identity.{IdentityMatch}
use ai_intelligence_theft_de.Pipeline.IdentityStore.{
  Request, Hit, Distance, absent, malformed, number, Row, Marked, extract_identity_id,
  extract_best_match, first_of, hits_of, hits_after, row_of, parse_batch_results, matched_ids,
  restore, patch,
}
use ai_intelligence_theft_de.Pipeline.IdentityStore.Rows.{newest, id_of, marked_id}

-- The last request whose result is a given identity, with its vector.
unfoldable pub latest :
    {Vector Score : Type 0}
    → String
    → List (Request Vector × Vector)
    → List (IdentityMatch Score)
    → Option (Request Vector × Vector)
latest q [] ms = none
latest q (r ∷ rs) [] = none
latest q (r ∷ rs) (m ∷ ms) =
    first_some (latest q rs ms) (ite (str_dec q m.identity_id) (some r) none)

-- The identities of the results that matched.
unfoldable pub matched_of : {Score : Type 0} → List (IdentityMatch Score) → List String
matched_of [] = []
matched_of (m ∷ ms) =
    let rest = matched_of ms in if m.matched_existing then m.identity_id ∷ rest else rest

module _ {Vector : Type 0} where
  restore-id : (stored : List (String × ℕ)) (p : Row Vector) → id_of (restore stored p) ≡ id_of p
  unfolding restore
  restore-id stored p = ground arith

  pub newest-patch :
      (q : String) (stored : List (String × ℕ)) (ps : List (Marked Vector))
      → newest id_of q (patch stored ps)
        ≡ map_some (λ p. restore stored (p.row)) (newest marked_id q ps)
  unfolding newest patch
  newest-patch q stored [] = refl
  newest-patch q stored (p ∷ ps) = ground (arith, newest-patch q stored ps, restore-id stored p.row)

module _ {Score : Type 0} (low : Score) (geb : Score → Score → Bool) (threshold : Score)
    (fresh : ℕ → String) where
  -- A result that matched nothing has the identity that was drawn.
  extract-fresh :
      (best : Option (Hit Score)) (drawn : ℕ)
      → let m = (extract_best_match low geb threshold fresh best drawn).0 in
        m.matched_existing ≡ false → m.identity_id ≡ fresh drawn
  unfolding extract_best_match
  extract-fresh none drawn h = refl
  extract-fresh (some best) drawn h = ground arith

module _ {Vector Score : Type 0} (low : Score) (geb : Score → Score → Bool) (threshold : Score)
    (fresh : ℕ → String) where
  -- A payload whose identity is not fetched has a drawn one.
  pub newest_unfetched :
      (known : String → Option (Row Vector))
      → ((n : ℕ) → known (fresh n) ≡ none)
      → (q : String) (rs : List (Request Vector × Vector)) (found : List (List (Hit Score)))
        (now drawn : ℕ) (p : Marked Vector)
      → newest marked_id q (parse_batch_results low geb threshold fresh rs found now drawn).1
        ≡ some p
      → holds str_dec q
          (matched_ids (parse_batch_results low geb threshold fresh rs found now drawn).1)
        ≡ false
      → known q ≡ none
  unfolding newest parse_batch_results matched_ids row_of
  newest_unfetched known clean q [] found now drawn p h k = absurd (ground arith)
  newest_unfetched known clean q ((r, v) ∷ rs) found now drawn p h k =
      let step = extract_best_match low geb threshold fresh (first_of (hits_of found)) drawn in
      ground (
        arith,
        newest_unfetched known clean q rs (hits_after found) now step.1 p,
        extract-fresh low geb threshold fresh (first_of (hits_of found)) drawn,
        clean drawn,
      )

  -- The newest payload of an identity is that of the last request that resolved to it.
  pub newest-parse :
      (q : String) (rs : List (Request Vector × Vector)) (found : List (List (Hit Score)))
      (now drawn : ℕ)
      → let (results, payloads, _) =
          parse_batch_results low geb threshold fresh rs found now drawn in
        map_some (λ p. p.row) (newest marked_id q payloads)
        ≡ map_some (λ r. row_of r.0 r.1 q now now) (latest q rs results)
  unfolding newest parse_batch_results latest row_of
  newest-parse q [] found now drawn = refl
  newest-parse q ((r, v) ∷ rs) found now drawn =
      let step = extract_best_match low geb threshold fresh (first_of (hits_of found)) drawn in
      ground (arith, newest-parse q rs (hits_after found) now step.1)

  pub length-parse :
      (rs : List (Request Vector × Vector)) (found : List (List (Hit Score))) (now drawn : ℕ)
      → length (parse_batch_results low geb threshold fresh rs found now drawn).0 ≡ length rs
  unfolding parse_batch_results
  length-parse [] found now drawn = refl
  length-parse ((r, v) ∷ rs) found now drawn = ap suc (length-parse rs (hits_after found) now _)

-- The identity that a hit names: its "id", or else its "identity_id", or else that of its entity.
pub data Named {Score : Type 0} (hit : Hit Score) (id : String) : Type 0 where
  direct : hit.id ≡ some id → Named hit id
  named : hit.id ≡ none → hit.identity_id ≡ some id → Named hit id
  held : hit.id ≡ none → hit.identity_id ≡ none → hit.entity ≡ some (some id) → Named hit id

Named_iff :
    {Score : Type 0} (hit : Hit Score) (id : String)
    → (extract_identity_id hit ≡ some id) ↔ Named hit id
unfolding extract_identity_id
Named_iff hit id = (to, from)
  where
    to : extract_identity_id hit ≡ some id → Named hit id
    to h = elim (Option-cases hit.id) [
      | inr d ↦ direct (ground (arith, d.1, h))
      | inl n ↦ elim (Option-cases hit.identity_id) [
        | inr d ↦ named n (ground (arith, n, d.1, h))
        | inl m ↦ elim (Option-cases hit.entity) [
          | inl k ↦ absurd (ground (arith, n, m, k, h))
          | inr d ↦ held n m (ground (arith, n, m, d.1, h))
        ]
      ]
    ]

    from : Named hit id → extract_identity_id hit ≡ some id
    from (direct d) = ground (arith, d)
    from (named n d) = ground (arith, n, d)
    from (held n m d) = ground (arith, n, m, d)

module _ {Score : Type 0} (geb : Score → Score → Bool) (threshold : Score)
    (fresh : ℕ → String) where
  -- The best hit of a request reaches the threshold and names an identity.
  pub record Fits (best : Option (Hit Score)) (similarity : Score) (id : String) : Type 0 where
    pub hit : Hit Score
    pub found : best ≡ some hit
    pub scored : hit.distance ≡ number similarity
    pub reaches : geb similarity threshold ≡ true
    pub names : Named hit id

  -- A request's match is the identity that its best hit names, if that fits, and else a drawn one.
  pub record IsMatch (best : Option (Hit Score)) (m : IdentityMatch Score) : Type 0 where
    pub matched :
        m.matched_existing ≡ true
        → (similarity : Score) × (m.similarity ≡ some similarity)
          × Fits best similarity m.identity_id
    pub new :
        m.matched_existing ≡ false
        → ((n : ℕ) × (m.identity_id ≡ fresh n))
          × ((similarity : Score) (id : String) → ¬ Fits best similarity id)

  -- The matches of a batch, in the order of the search results; a request beyond them has no hits.
  abbrev pub AllMatch : List (List (Hit Score)) → List (IdentityMatch Score) → Type 0
  AllMatch found [] = Unit
  AllMatch [] (m ∷ ms) = IsMatch none m × AllMatch [] ms
  AllMatch ([] ∷ more) (m ∷ ms) = IsMatch none m × AllMatch more ms
  AllMatch ((best ∷ hits) ∷ more) (m ∷ ms) = IsMatch (some best) m × AllMatch more ms

  module _ (low : Score) where
    new-IsMatch :
        (best : Option (Hit Score)) (similarity : Score) (drawn : ℕ)
        → ((score : Score) (id : String) → ¬ Fits best score id)
        → IsMatch best (record {
          identity_id = fresh drawn;
          matched_existing = false;
          similarity = some similarity;
        })
    new-IsMatch best similarity drawn unfit = record {
      matched = λ h. absurd (ground arith);
      new = λ h. ((drawn, refl), unfit);
    }

    -- A hit that does not fit is the same as none, with its own score or the lowest.
    hit_new :
        (hit : Hit Score) (drawn : ℕ) (similarity : Score)
        → (extract_best_match low geb threshold fresh (some hit) drawn).0 ≡ record {
          identity_id = fresh drawn;
          matched_existing = false;
          similarity = some similarity;
        }
        → ((s : Score) (id : String)
            → hit.distance ≡ number s
            → geb s threshold ≡ true
            → extract_identity_id hit ≡ some id
            → ⊥)
        → IsMatch (some hit) (extract_best_match low geb threshold fresh (some hit) drawn).0
    hit_new hit drawn similarity e refuted = subst (IsMatch (some hit)) (sym e) (
        new-IsMatch (some hit) similarity drawn (λ s id f.
          let same : f.hit ≡ hit = sym (ap (λ o. or_else o hit) f.found) in
          refuted s id (subst (λ (h : Hit Score). h.distance ≡ number s) same f.scored) f.reaches (
            subst (λ (h : Hit Score). extract_identity_id h ≡ some id) same
              ((Named_iff f.hit id).1 f.names))))

    matched-IsMatch :
        (hit : Hit Score) (similarity : Score) (id : String)
        → hit.distance ≡ number similarity
        → geb similarity threshold ≡ true
        → Named hit id
        → IsMatch
            (some hit)
            (record { identity_id = id; matched_existing = true; similarity = some similarity })
    matched-IsMatch hit similarity id d t n = record {
      matched = λ h. (
        similarity,
        refl,
        record { hit = hit; found = refl; scored = d; reaches = t; names = n },
      );
      new = λ h. absurd (ground arith);
    }

    number-IsMatch :
        (hit : Hit Score) (drawn : ℕ) (similarity : Score)
        → hit.distance ≡ number similarity
        → IsMatch (some hit) (extract_best_match low geb threshold fresh (some hit) drawn).0
    unfolding extract_best_match
    number-IsMatch hit drawn similarity d = elim (Bool-cases (geb similarity threshold)) [
      | inr f ↦
          hit_new hit drawn similarity (ground (arith, d, f))
            (λ s id d' t e. absurd (grind (arith, d, d', t, f)))
      | inl t ↦ elim (Option-cases (extract_identity_id hit)) [
        | inl n ↦
            hit_new hit drawn low (ground (arith, d, t, n))
              (λ s id d' t' e. absurd (ground (arith, n, e)))
        | inr e ↦
            let same : (extract_best_match low geb threshold fresh (some hit) drawn).0 ≡ record {
              identity_id = e.0;
              matched_existing = true;
              similarity = some similarity;
            } =
              ground (arith, d, t, e.1) in
            subst (IsMatch (some hit)) (sym same)
              (matched-IsMatch hit similarity e.0 d t ((Named_iff hit e.0).0 e.1))
      ]
    ]

    extract-IsMatch :
        (best : Option (Hit Score)) (drawn : ℕ)
        → IsMatch best (extract_best_match low geb threshold fresh best drawn).0
    unfolding extract_best_match
    extract-IsMatch none drawn =
        new-IsMatch none low drawn (λ score id f. absurd (grind (arith, f.found)))
    extract-IsMatch (some hit) drawn = go hit.distance refl
      where
        go :
            (d : Distance Score)
            → hit.distance ≡ d
            → IsMatch (some hit) (extract_best_match low geb threshold fresh (some hit) drawn).0
        go absent e =
            hit_new hit drawn low (ground (arith, e)) (λ s id d t i. absurd (ground (arith, e, d)))
        go malformed e =
            hit_new hit drawn low (ground (arith, e)) (λ s id d t i. absurd (ground (arith, e, d)))
        go (number similarity) e = number-IsMatch hit drawn similarity e

module _ {Vector Score : Type 0} (low : Score) (geb : Score → Score → Bool) (threshold : Score)
    (fresh : ℕ → String) where
  -- Every request has its match.
  pub parse-AllMatch :
      (rs : List (Request Vector × Vector)) (found : List (List (Hit Score))) (now drawn : ℕ)
      → AllMatch geb threshold fresh found
          (parse_batch_results low geb threshold fresh rs found now drawn).0
  unfolding parse_batch_results
  parse-AllMatch [] found now drawn = tt
  parse-AllMatch ((r, v) ∷ rs) [] now drawn =
      (extract-IsMatch geb threshold fresh low none drawn, parse-AllMatch rs [] now _)
  parse-AllMatch ((r, v) ∷ rs) ([] ∷ more) now drawn =
      (extract-IsMatch geb threshold fresh low none drawn, parse-AllMatch rs more now _)
  parse-AllMatch ((r, v) ∷ rs) ((best ∷ hits) ∷ more) now drawn =
      (extract-IsMatch geb threshold fresh low (some best) drawn, parse-AllMatch rs more now _)

  -- The identities of the requests that matched.
  pub matched_ids-parse :
      (rs : List (Request Vector × Vector)) (found : List (List (Hit Score))) (now drawn : ℕ)
      → let (results, payloads, _) =
          parse_batch_results low geb threshold fresh rs found now drawn in
        matched_ids payloads ≡ matched_of results
  unfolding parse_batch_results matched_ids matched_of row_of
  matched_ids-parse [] found now drawn = refl
  matched_ids-parse ((r, v) ∷ rs) found now drawn = ground (
    arith,
    matched_ids-parse rs (hits_after found) now
        (extract_best_match low geb threshold fresh (first_of (hits_of found)) drawn).1,
  )
