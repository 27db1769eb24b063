-- ===== src/Tests/Services.antt =====
-- The theorems on the identity store and the cameras at concrete inputs.
use ai_intelligence_theft_de.Base.{
  ℕ, String, true, false, List, [], ◌∷◌, none, some, ◌≡◌, refl, ◌≢◌, if◌then◌else◌,
}
use ai_intelligence_theft_de.Pipeline.IdentityStore.{Request, Row}
use ai_intelligence_theft_de.Pipeline.IdentityStore.Client.{Numerics, Settings, Store}
use ai_intelligence_theft_de.Pipeline.IdentityStore.Memory.{Table}
use ai_intelligence_theft_de.Base.{
  leb, ◌-◌, ◌*◌, ◌≤◌, ◌<◌, ◌↔◌, length, drop, replicate, length-replicate, arith,
}
use ai_intelligence_theft_de.Cameras.Listing.{list_camera_records, list_cameras}
use ai_intelligence_theft_de.Cameras.Listing.Pages.{
  counted, take, list_camera_records-all, list_cameras-page,
}
use ai_intelligence_theft_de.Cameras.Urls.{Text, colon, at_sign, has, preview, location_of}
use ai_intelligence_theft_de.Cameras.Urls.Masking.{IsQuote, shown, preview-shown}

abbrev numerics : Numerics ℕ ℕ
numerics = record {
  size = λ _. 1;
  has_norm = λ v. leb 1 v;
  unit = λ v. v;
  zero_score = 0;
  geb = λ a b. leb b a;
  fresh = λ n. "person_new";
}

abbrev store_settings : Settings ℕ
store_settings = record { embedding_dimension = 1; similarity_threshold = 5 }

abbrev known_row : Row ℕ
known_row = record {
  identity_id = "person_a";
  embedding = 7;
  camera_id = "a";
  stream_name = "door";
  local_track_id = "1";
  first_seen_ts = 3;
  last_seen_ts = 4;
}

abbrev person_store : Store Table
person_store = record {
  connected = false;
  healthy = true;
  last_error = none;
  max_concurrent_batches = 4;
  semaphore = none;
  drawn = 0;
  remote = ("person_a", known_row) ∷ [];
}

abbrev asks : String → ℕ → Request ℕ
asks track v = record {
  camera_id = "b";
  stream_name = "hall";
  local_track_id = track;
  embedding = v;
}

-- 250 cameras, which take three pages.
abbrev inventory : List ℕ
inventory = replicate 250 7

abbrev pages : ℕ → ℕ → List (ℕ × ℕ)
pages limit offset = counted (length inventory) (take limit (drop offset inventory))

list_camera_records-all_example : list_camera_records pages 3 ≡ some inventory
list_camera_records-all_example =
    list_camera_records-all pages inventory (λ limit offset. refl) 3 (omega arith)
      (omega (arith, length-replicate {A = ℕ} 250 7))

list_cameras-page_example :
    let shown = list_cameras pages 3 100 in
    (shown.items ≡ take 100 (drop ((3 - 1) * 100) inventory))
    × (shown.total_items ≡ length inventory)
    × ((shown.has_next ≡ true) ↔ (3 * 100 < length inventory))
    × ((shown.has_previous ≡ true) ↔ (1 < 3))
list_cameras-page_example =
    list_cameras-page pages inventory (λ limit offset. refl) 3 100 (omega arith) (omega arith)

-- Letters stay, and any other code point is written as "%".
abbrev quote : Text → Text
quote [] = []
quote (x ∷ xs) = (if leb 97 x then x else 37) ∷ quote xs

without : (c : ℕ) (t : Text) → c ≤ 96 → c ≢ 37 → has c (quote t) ≡ false
without c [] h n = refl
without c (x ∷ xs) h n = ground (arith, without c xs h n)

quote-IsQuote : IsQuote quote
quote-IsQuote = record {
  without_at = λ t. without at_sign t (omega arith) (omega arith);
  without_colon = λ t. without colon t (omega arith) (omega arith);
}

preview-shown_example :
    preview quote
      (λ n. n ∷ [])
      (record {
        host = some (104 ∷ []);
        port = none;
        username = some (117 ∷ []);
        password = some (112 ∷ 64 ∷ []);
        path = some (112 ∷ []);
        direct_rtsp_url = none;
      })
    ≡ shown quote
        (117 ∷ [])
        (some (112 ∷ 64 ∷ []))
        (location_of quote (λ n. n ∷ []) (104 ∷ []) none (112 ∷ []))
preview-shown_example =
    preview-shown quote (λ n. n ∷ []) quote-IsQuote 117 [] (104 ∷ []) (112 ∷ []) none
      (some (112 ∷ 64 ∷ [])) none refl
