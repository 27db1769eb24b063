-- ===== src/Tests/Cameras.antt =====
-- The theorems on the camera service at concrete inputs.
use ai_intelligence_theft_de.Base.{ℕ, String, true, List, [], ◌∷◌, none, some, length, drop, refl}
use ai_intelligence_theft_de.Cameras.Listing.Pages.{counted, take}
use ai_intelligence_theft_de.Cameras.Service.{Fields, Camera, Updates, Site, unknown, update_camera}
use ai_intelligence_theft_de.Cameras.Service.Changes.{Settles, update_camera-Settles}
use ai_intelligence_theft_de.Cameras.Service.Addresses.{AllBuild}
use ai_intelligence_theft_de.Cameras.Service.Addresses.Runs.{
  Change, creates, updates, deletes, run, run-AllBuild,
}

abbrev hall : Fields ℕ
hall = record {
  name = some (104 ∷ []);
  location = none;
  address = record {
    host = some (49 ∷ []);
    port = some 554;
    username = none;
    password = none;
    path = some (47 ∷ []);
    direct_rtsp_url = none;
  };
  transport = some (116 ∷ []);
  status = some (97 ∷ []);
  metadata = some 0;
  tags = some [];
}

-- A request that sets the port alone.
abbrev port_update : Updates ℕ
port_update = record {
  name = none;
  location = none;
  host = none;
  port = some (some 8554);
  username = none;
  password = none;
  path = none;
  direct_rtsp_url = none;
  transport = none;
  status = none;
  metadata = none;
  tags = none;
}

abbrev one_camera : Site ℕ
one_camera = record {
  cameras =
      ("cam_1", record { fields = hall; validation_status = unknown; validation_message = none })
      ∷ [];
  config = [];
}

abbrev query : List (String × Camera ℕ) → ℕ → ℕ → List ((String × Camera ℕ) × ℕ)
query t limit offset = counted (length t) (take limit (drop offset t))

update_camera-Settles_example :
    Settles
      (λ t. t)
      none
      none
      true
      "cam_1"
      port_update
      one_camera
      one_camera
      (update_camera query none none true (λ s. s) "cam_1" port_update one_camera)
update_camera-Settles_example =
    update_camera-Settles query (λ t. t) none none true (λ s. s) "cam_1" port_update one_camera
      (λ t. ((λ limit offset. refl), refl))

-- A camera that is created and updated, and an update that takes its host away, which is refused.
abbrev calls : List (Change ℕ)
calls =
    creates none true "cam_1" hall
    ∷ updates none true "cam_1" port_update hall
    ∷ updates none true "cam_1" (record port_update { host = some none }) hall
    ∷ deletes none true "cam_2"
    ∷ []

run-AllBuild_example :
    AllBuild (λ t. t) (λ n. []) (run query (record { cameras = []; config = [] }) calls).cameras
unfolding ai_intelligence_theft_de.Cameras.Service.validate_source
run-AllBuild_example = run-AllBuild query (λ t. t) (λ n. []) calls (refl, (tt, (tt, (tt, tt))))
