-- ===== src/Pipeline/SlotStore/Ownership.antt =====
-- Who owns which slot of the shared store.
use ai_intelligence_theft_de.Base.{
  ℕ, suc, ◌+◌, ◌≤◌, ◌<◌, ◌≡◌, refl, true, List, [], ◌∷◌, ◌++◌, Option, none, some, arith,
  ℕ_discrete, ltb, ◌==◌, length, if◌then◌else◌, Bool-cases, Option-cases, is_some, inl, inr,
}
use ai_intelligence_theft_de.Base.Dict.{
  lookup, holds, lookup-insert, length-insert_absent, length-insert_held,
}
use ai_intelligence_theft_de.Pipeline.SlotStore.{
  SlotStore, add, discard, init, create_slot, acquire, write, release,
}

unfoldable pub count : ℕ → List ℕ → ℕ
count s [] = 0
count s (x ∷ xs) = (if s == x then 1 else 0) + count s xs

pub count-append : (s : ℕ) (xs ys : List ℕ) → count s (xs ++ ys) ≡ count s xs + count s ys
unfolding count
count-append s [] ys = omega arith
count-append s (x ∷ xs) ys = omega (arith, count-append s xs ys)

pub holds-count : (s : ℕ) (xs : List ℕ) → holds ℕ_discrete s xs ≡ ltb 0 (count s xs)
unfolding count
holds-count s [] = refl
holds-count s (x ∷ xs) = ground (arith, holds-count s xs)

count-discard :
    (t s : ℕ) (xs : List ℕ)
    → 0 < count s xs
    → count t (discard s xs) + (if t == s then 1 else 0) ≡ count t xs
unfolding count discard
count-discard t s [] h = absurd (omega arith)
count-discard t s (x ∷ xs) h = ground (arith, count-discard t s xs)

count-add :
    (t s : ℕ) (xs : List ℕ)
    → count s xs ≡ 0
    → count t (add s xs) ≡ (if t == s then 1 else 0) + count t xs
unfolding count add
count-add t s xs h = ground (arith, holds-count s xs)

module _ {Frame : Type 0} where
  -- `users` lists the slots that clients hold.
  pub record Serves (st : SlotStore Frame) (users : List ℕ) : Type 0 where
    pub owned : (s : ℕ) → count s st.in_use ≡ count s users
    pub split :
        (s : ℕ)
        → count s st.available + count s st.in_use ≡ (if ltb s st.next_slot_id then 1 else 0)
    pub known : (s : ℕ) → is_some (lookup ℕ_discrete s st.slots) ≡ ltb s st.next_slot_id
    pub sized : length st.slots ≡ st.next_slot_id
    pub bounded : st.next_slot_id ≤ st.max_slots

  init-Serves : (n : ℕ) → Serves (init {Frame = Frame} n) []
  unfolding init count lookup
  init-Serves n = record {
    owned = λ s. refl;
    split = λ s. ground arith;
    known = λ s. ground arith;
    sized = refl;
    bounded = omega arith;
  }

  reuse-Serves :
      (st : SlotStore Frame) (users : List ℕ) (x : ℕ) (rest : List ℕ)
      → st.available ≡ x ∷ rest
      → Serves st users
      → Serves (record st { available = rest; in_use = add x st.in_use }) (x ∷ users)
        × (count x users ≡ 0)
  unfolding count
  reuse-Serves st users x rest e v =
      let one : count x st.available ≡ suc (count x rest) = ground arith in
      let unused : count x st.in_use ≡ 0 = ground (arith, v.split x) in
      (
        record {
          owned = λ s. ground (arith, v.owned s, count-add s x st.in_use unused);
          split = λ s. ground (arith, v.split s, count-add s x st.in_use unused);
          known = v.known;
          sized = v.sized;
          bounded = v.bounded;
        },
        omega (arith, v.owned x),
      )

  create-Serves :
      (st : SlotStore Frame) (users : List ℕ)
      → length st.slots < st.max_slots
      → Serves st users
      → Serves
          (record (create_slot st).0 { in_use = add st.next_slot_id st.in_use })
          (st.next_slot_id ∷ users)
        × (count st.next_slot_id users ≡ 0)
  unfolding count create_slot
  create-Serves st users room v =
      let x = st.next_slot_id in
      let unused : count x st.in_use ≡ 0 = ground (arith, v.split x) in
      (
        record {
          owned = λ s. ground (arith, v.owned s, count-add s x st.in_use unused);
          split = λ s. ground (arith, v.split s, count-add s x st.in_use unused);
          known = λ s.
              ground
                (arith, v.known s, lookup-insert {V = Option Frame} ℕ_discrete x s none st.slots);
          sized = omega (
            arith,
            v.sized,
            length-insert_absent {V = Option Frame} ℕ_discrete x none st.slots
                (ground (arith, v.known x)),
          );
          bounded = omega (arith, v.sized);
        },
        omega (arith, v.owned x),
      )

  -- A slot that is handed out was held by nobody, and is held by the caller afterwards; every other slot
  -- keeps its owner.
  pub acquire-Serves :
      (st : SlotStore Frame) (users : List ℕ) (s : ℕ)
      → Serves st users
      → (acquire st).1 ≡ some s
      → Serves (acquire st).0 (s ∷ users) × (count s users ≡ 0)
  unfolding acquire
  acquire-Serves st users s v h = go st.available refl
    where
      go :
          (av : List ℕ)
          → st.available ≡ av
          → Serves (acquire st).0 (s ∷ users) × (count s users ≡ 0)
      go (x ∷ rest) e =
          let same : x ≡ s = ground arith in
          rw (e, acquire, ← same) (reuse-Serves st users x rest e v)
      go [] e = elim (Bool-cases (ltb (length st.slots) st.max_slots)) [
        | inl room ↦
            let same : st.next_slot_id ≡ s = ground arith in
            rw (e, room, acquire, ← same) (create-Serves st users (ground arith) v)
        | inr none_left ↦ absurd (ground arith)
      ]

  -- Without a free slot every slot that may exist is in use, and nothing changes.
  acquire_fails :
      (st : SlotStore Frame) (users : List ℕ)
      → Serves st users
      → (acquire st).1 ≡ none
      → ((acquire st).0 ≡ st) × ((s : ℕ) → s < st.max_slots → count s users ≡ 1)
  unfolding acquire count
  acquire_fails st users v h = (ground arith, λ s lt. ground (arith, v.owned s, v.split s, v.sized))

  -- A slot that its client releases leaves the client's slots and can be handed out again; every other
  -- slot keeps its owner.
  pub release-Serves :
      (st : SlotStore Frame) (users : List ℕ) (s : ℕ)
      → Serves st (s ∷ users)
      → Serves (release st s) users
  unfolding release count
  release-Serves st users s v =
      let held : 0 < count s st.in_use = ground (arith, v.owned s) in
      let is_held : holds ℕ_discrete s st.in_use ≡ true = ground (arith, holds-count s st.in_use) in
      rw (is_held, release)
        (record {
          owned = λ t. ground (arith, v.owned t, count-discard t s st.in_use held);
          split = λ t. ground (
            arith,
            v.split t,
            count-discard t s st.in_use held,
            count-append t st.available (s ∷ []),
          );
          known = v.known;
          sized = v.sized;
          bounded = v.bounded;
        })

  pub write-Serves :
      (st : SlotStore Frame) (users : List ℕ) (s : ℕ) (f : Frame)
      → Serves st users
      → 0 < count s users
      → Serves (write st s f) users
  unfolding write
  write-Serves st users s f v h = record {
    owned = v.owned;
    split = v.split;
    known = λ t.
        ground
          (arith, v.known t, v.split s, v.owned s, lookup-insert ℕ_discrete s t (some f) st.slots);
    sized = elim (Option-cases (lookup ℕ_discrete s st.slots)) [
      | inl e ↦ absurd (ground (arith, v.known s, v.split s, v.owned s))
      | inr (w, e) ↦
          omega (
            arith,
            v.sized,
            length-insert_held {V = Option Frame} ℕ_discrete s (some f) w st.slots e,
          )
    ];
    bounded = v.bounded;
  }
