-- ===== src/Inference/TemporalBuffer/Window.antt =====
-- The bounded window: `deque(maxlen=w)` against the last `w` entries of all that was appended.
use ai_intelligence_theft_de.Base.{
  ℕ, zero, suc, ◌+◌, ◌-◌, ◌≤◌, ◌<◌, ◌≡◌, refl, List, [], ◌∷◌, ◌++◌, arith, length, drop,
  length-append, length-drop, take_right, lt→ltb, dec_lt, some, last?,
}
use ai_intelligence_theft_de.Inference.TemporalBuffer.{deque_append}

module _ {ℓ} {A : Type ℓ} where
  drop-append : (n : ℕ) (xs ys : List A) → n ≤ length xs → drop n (xs ++ ys) ≡ drop n xs ++ ys
  drop-append zero xs ys h = refl
  drop-append (suc n) [] ys h = absurd (omega arith)
  drop-append (suc n) (x ∷ xs) ys h = drop-append n xs ys (omega arith)

  drop-drop : (n : ℕ) (xs : List A) → drop 1 (drop n xs) ≡ drop (suc n) xs
  drop-drop zero xs = refl
  drop-drop (suc n) [] = refl
  drop-drop (suc n) (x ∷ xs) = drop-drop n xs

  pub last?-append : (xs : List A) (x : A) → last? (xs ++ x ∷ []) ≡ some x
  last?-append [] x = refl
  last?-append (y ∷ []) x = refl
  last?-append (y ∷ z ∷ xs) x = last?-append (z ∷ xs) x

  drop_evict :
      (k : ℕ) (xs : List A) (x : A)
      → k ≤ length xs
      → drop 1 (drop k xs ++ x ∷ []) ≡ drop (suc k) (xs ++ x ∷ [])
  drop_evict k xs x h = rw (← drop-append k xs (x ∷ []) h) (drop-drop k (xs ++ x ∷ []))

  -- To append to the last `w` entries gives the last `w` entries.
  pub deque_append-take_right :
      (w : ℕ) (xs : List A) (x : A)
      → deque_append w (take_right w xs) x ≡ take_right w (xs ++ x ∷ [])
  unfolding deque_append
  deque_append-take_right w xs x =
      let k = length xs - w in
      let grown : length (drop k xs ++ x ∷ []) ≡ length xs - k + 1 =
        omega (arith, length-append (drop k xs) (x ∷ []), length-drop k xs) in
      elim (dec_lt (length xs) w) [
        | yes p ↦
            let e : length (xs ++ x ∷ []) - w ≡ 0 = omega (arith, length-append xs (x ∷ [])) in
            let e' : k ≡ 0 = omega arith in rw (e, e') (ground (arith, length-append xs (x ∷ [])))
        | no p ↦
            let e : length (xs ++ x ∷ []) - w ≡ suc k = omega (arith, length-append xs (x ∷ [])) in
            rw (lt→ltb w (length (drop k xs ++ x ∷ [])) (omega arith), e)
              (drop_evict k xs x (omega arith))
      ]

  -- The newest entry is last, whatever the deque held.
  pub last?-deque_append :
      (w : ℕ) (xs : List A) (x : A) → 0 < w → last? (deque_append w xs x) ≡ some x
  unfolding deque_append
  last?-deque_append w [] x h = ground arith
  last?-deque_append w (y ∷ ys) x h = ground (arith, last?-append ys x, last?-append (y ∷ ys) x)
