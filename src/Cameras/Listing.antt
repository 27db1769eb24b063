-- ===== src/Cameras/Listing.antt =====
-- camera_repository.py: `list`, and the two listings of camera_service.py. PostgreSQL answers a query by
-- rows, each with the total count; the filters stay the same throughout a listing.
pub mod Pages
use ai_intelligence_theft_de.Base.{
  ℕ, zero, suc, ◌+◌, ◌-◌, ◌*◌, ◌/◌, Bool, true, false, ◌&&◌, ◌||◌, List, [], ◌∷◌, ◌++◌, map, Option,
  none, some, length, ltb, leb, ◌==◌, if◌then◌else◌,
}

abbrev pub is_empty {ℓ} : {A : Type ℓ} → List A → Bool
is_empty [] = true
is_empty (x ∷ xs) = false

-- `int(rows[0]["total_count"]) if rows else 0`
unfoldable pub total_of : {Camera : Type 0} → List (Camera × ℕ) → ℕ
total_of [] = 0
total_of (row ∷ rows) = row.1

unfoldable pub cameras_of : {Camera : Type 0} → List (Camera × ℕ) → List Camera
cameras_of [] = []
cameras_of (row ∷ rows) = row.0 ∷ cameras_of rows

-- `PaginatedItems` with its `PaginationMeta`
pub record Page (Camera : Type 0) : Type 0 where
  pub items : List Camera
  pub page : ℕ
  pub page_size : ℕ
  pub total_items : ℕ
  pub total_pages : ℕ
  pub has_next : Bool
  pub has_previous : Bool

module _ {Camera : Type 0} (fetch : ℕ → ℕ → List (Camera × ℕ)) where
  -- `CameraRepository.list`
  unfoldable pub list : ℕ → ℕ → List Camera × ℕ
  list limit offset =
      let rows = fetch limit offset in
      if is_empty rows && ltb 0 offset
      then ([], total_of (fetch 1 0))
      else (cameras_of rows, total_of rows)

  -- `CameraService.list_cameras`; the page and its size are at least 1.
  unfoldable pub list_cameras : ℕ → ℕ → Page Camera
  list_cameras page page_size =
      let (items, total) = list page_size ((page - 1) * page_size) in
      let total_pages = if total == 0 then 0 else (total + page_size - 1) / page_size in
      record {
        items = items;
        page = page;
        page_size = page_size;
        total_items = total;
        total_pages = total_pages;
        has_next = ltb page total_pages;
        has_previous = ltb 1 page;
      }

  -- The `while True` of `_list_camera_records`, on fuel.
  unfoldable pub list_from : ℕ → ℕ → List Camera → Option (List Camera)
  list_from zero page cameras = none
  list_from (suc fuel) page cameras =
      let (page_cameras, total) = list 100 ((page - 1) * 100) in
      let all = cameras ++ page_cameras in
      let rest = list_from fuel (page + 1) all in
      if leb total (length all) || is_empty page_cameras then some all else rest

  unfoldable pub list_camera_records : ℕ → Option (List Camera)
  list_camera_records fuel = list_from fuel 1 []
