-- ===== src/Cameras/Listing/Pages.antt =====
-- The listings of camera_service.py over one list of cameras.
use ai_intelligence_theft_de.Base.{
  ℕ, zero, suc, ◌+◌, ◌-◌, ◌*◌, ◌/◌, ◌≤◌, ◌<◌, true, false, List, [], ◌∷◌, ◌++◌, some, length, drop,
  ◌≡◌, refl, ap, ◌∙◌, ◌↔◌, arith, length-drop, dec_lt, dec_le,
}
use native.Mathlib.Nat.{mul-le-mul_right}
use ai_intelligence_theft_de.Cameras.Listing.{
  is_empty, total_of, cameras_of, list, list_cameras, list_from, list_camera_records,
}

abbrev pub take {ℓ} : {A : Type ℓ} → ℕ → List A → List A
take zero xs = []
take (suc n) [] = []
take (suc n) (x ∷ xs) = x ∷ take n xs

length-take-le {ℓ} : {A : Type ℓ} (n : ℕ) (xs : List A) → length (take n xs) ≤ n
length-take-le zero xs = omega arith
length-take-le (suc n) [] = omega arith
length-take-le (suc n) (x ∷ xs) = omega (arith, length-take-le n xs)

length-take {ℓ} : {A : Type ℓ} (n : ℕ) (xs : List A) → n ≤ length xs → length (take n xs) ≡ n
length-take zero xs h = refl
length-take (suc n) [] h = absurd (omega arith)
length-take (suc n) (x ∷ xs) h = ap suc (length-take n xs (omega arith))

take_all {ℓ} : {A : Type ℓ} (n : ℕ) (xs : List A) → length xs ≤ n → take n xs ≡ xs
take_all zero [] h = refl
take_all zero (x ∷ xs) h = absurd (omega arith)
take_all (suc n) [] h = refl
take_all (suc n) (x ∷ xs) h = ap (λ t. x ∷ t) (take_all n xs (omega arith))

take-add {ℓ} :
    {A : Type ℓ} (m n k : ℕ) (xs : List A) → m + n ≡ k → take m xs ++ take n (drop m xs) ≡ take k xs
take-add zero n k xs e = ap (λ j. take j xs) (omega arith)
take-add (suc m) n zero [] e = absurd (omega arith)
take-add (suc m) zero (suc k) [] e = refl
take-add (suc m) (suc n) (suc k) [] e = refl
take-add (suc m) n zero (x ∷ xs) e = absurd (omega arith)
take-add (suc m) n (suc k) (x ∷ xs) e = ap (λ t. x ∷ t) (take-add m n k xs (omega arith))

-- Rows with a total count.
abbrev pub counted : {Camera : Type 0} → ℕ → List Camera → List (Camera × ℕ)
counted n [] = []
counted n (x ∷ xs) = (x, n) ∷ counted n xs

-- What `LIMIT`, `OFFSET` and `COUNT(*) OVER()` select of the cameras that the filters leave.
abbrev pub IsPaged : {Camera : Type 0} → (ℕ → ℕ → List (Camera × ℕ)) → List Camera → Type 0
IsPaged fetch all =
    (limit offset : ℕ) → fetch limit offset ≡ counted (length all) (take limit (drop offset all))

module _ {Camera : Type 0} where
  cameras_of-counted : (n : ℕ) (xs : List Camera) → cameras_of (counted n xs) ≡ xs
  unfolding cameras_of
  cameras_of-counted n [] = refl
  cameras_of-counted n (x ∷ xs) = ap (λ t. x ∷ t) (cameras_of-counted n xs)

  total_of-first :
      (k : ℕ) (xs : List Camera) → total_of (counted (length xs) (take (suc k) xs)) ≡ length xs
  unfolding total_of
  total_of-first k [] = refl
  total_of-first k (x ∷ xs) = refl

  total_of-counted : (n : ℕ) (xs : List Camera) → is_empty xs ≡ false → total_of (counted n xs) ≡ n
  unfolding total_of
  total_of-counted n [] h = cc
  total_of-counted n (x ∷ xs) h = refl

  is_empty-counted : (n : ℕ) (xs : List Camera) → is_empty (counted n xs) ≡ is_empty xs
  is_empty-counted n [] = refl
  is_empty-counted n (x ∷ xs) = refl

  not_empty : {n : ℕ} (xs : List Camera) → length xs ≡ suc n → is_empty xs ≡ false
  not_empty [] h = absurd (omega arith)
  not_empty (x ∷ xs) h = refl

  empty_of : (xs : List Camera) → is_empty xs ≡ true → xs ≡ []
  empty_of [] h = refl
  empty_of (x ∷ xs) h = cc

within_pages : (page k l : ℕ) → page < (l + suc k - 1) / suc k → page * suc k < l
within_pages page k l h = omega (arith, mul-le-mul_right (suc k) h)

pages_reach : (page k l : ℕ) → page * suc k < l → page < (l + suc k - 1) / suc k
pages_reach page k l h = elim (dec_lt page ((l + suc k - 1) / suc k)) [
  | yes p ↦ p
  | no n ↦
      let q : (l + suc k - 1) / suc k ≤ page = omega arith in
      absurd (omega (arith, mul-le-mul_right (suc k) q))
]

module _ {Camera : Type 0} (fetch : ℕ → ℕ → List (Camera × ℕ)) (all : List Camera)
    (paged : IsPaged fetch all) where
  -- A page of the repository, with the total count also beyond the last page.
  list_lem :
      (limit offset : ℕ)
      → list fetch (suc limit) offset ≡ (take (suc limit) (drop offset all), length all)
  unfolding list
  list_lem limit zero = ground (
    arith,
    paged (suc limit) 0,
    cameras_of-counted (length all) (take (suc limit) all),
    total_of-first limit all,
  )
  list_lem limit (suc n) =
      let ys = take (suc limit) (drop (suc n) all) in
      ground (
        arith,
        paged (suc limit) (suc n),
        paged 1 0,
        cameras_of-counted (length all) ys,
        total_of-counted (length all) ys,
        total_of-first 0 all,
        is_empty-counted (length all) ys,
        empty_of ys,
      )

  -- A listing that holds the first cameras so far ends with all of them.
  list_from_lem :
      (fuel page : ℕ) (cameras : List Camera)
      → cameras ≡ take (page * 100) all
      → length all ≤ (page + fuel) * 100
      → 0 < fuel
      → list_from fetch fuel (page + 1) cameras ≡ some all
  unfolding list_from
  list_from_lem zero page cameras h enough some_fuel = absurd (omega arith)
  list_from_lem (suc fuel) page cameras h enough some_fuel =
      let offset = (page + 1 - 1) * 100 in
      let next = (page + 1) * 100 in
      let ys = take 100 (drop offset all) in
      let listed : list fetch 100 offset ≡ (ys, length all) = list_lem 99 offset in
      let so_far : cameras ++ ys ≡ take next all =
        ap (λ c. c ++ ys) (h ∙ ap (λ j. take j all) (omega arith))
        ∙ take-add offset 100 next all (omega arith) in
      elim (dec_le (length all) next) [
        | yes few ↦ ground (arith, listed, so_far ∙ take_all next all few)
        | no more ↦ ground (
          arith,
          listed,
          ap length so_far ∙ length-take next all (omega arith),
          not_empty ys (length-take 100 (drop offset all) (omega (arith, length-drop offset all))),
          list_from_lem fuel (page + 1) (cameras ++ ys) so_far,
        )
      ]

  -- Over the pages of one list, as much fuel as there are hundreds of cameras lists each camera once.
  pub list_camera_records-all :
      (fuel : ℕ) → 0 < fuel → length all ≤ fuel * 100 → list_camera_records fetch fuel ≡ some all
  unfolding list_camera_records
  list_camera_records-all fuel some_fuel enough =
      list_from_lem fuel 0 [] refl (omega arith) some_fuel

  -- A page shows its share of the cameras, the count of all, and whether more or earlier ones follow.
  pub list_cameras-page :
      (page page_size : ℕ)
      → 0 < page
      → 0 < page_size
      → let shown = list_cameras fetch page page_size in
        (shown.items ≡ take page_size (drop ((page - 1) * page_size) all))
        × (shown.total_items ≡ length all)
        × ((shown.has_next ≡ true) ↔ (page * page_size < length all))
        × ((shown.has_previous ≡ true) ↔ (1 < page))
  unfolding list_cameras
  list_cameras-page page zero p h = absurd (omega arith)
  list_cameras-page page (suc k) p h =
      let e = list_lem k ((page - 1) * suc k) in
      (
        ap (λ r. r.0) e,
        ap (λ r. r.1) e,
        (
          λ h. within_pages page k (length all) (ground (arith, e)),
          λ h. ground (arith, e, pages_reach page k (length all) h),
        ),
        ground arith,
      )
