-- ===== src/Cameras/Service/Changes.antt =====
-- How an update of camera_service.py ends.
use ai_intelligence_theft_de.Base.{
  ℕ, suc, String, Bool, true, false, List, Option, none, some, length, ◌≡◌, refl, sym, subst, inl,
  inr, ite, arith, if◌then◌else◌, str_dec, Bool-cases, Option-cases,
}
use ai_intelligence_theft_de.Base.Calls.{Reply, failed, done}
use ai_intelligence_theft_de.Base.Dict.{lookup, insert, lookup-insert}
use ai_intelligence_theft_de.Cameras.Listing.Pages.{IsPaged, list_camera_records-all}
use ai_intelligence_theft_de.Cameras.Urls.{Text, Address, is_blank}
use ai_intelligence_theft_de.Base.{[], ◌∷◌, ◌⊎◌, ◌↔◌, or_else}
use ai_intelligence_theft_de.Cameras.Service.{
  secret, secret_update, Fields, Camera, Updates, Error, not_found, no_source, refused, Site,
  merged, keeps_source, admitted, set_row, update_row, found, get_camera_record,
  sync_mediamtx_config, write_merged, update_camera,
}

-- A field after an update: the value that the request sets, or the one it had.
abbrev Field : {A : Type 0} → Option A → A → A → Type 0
Field none old new = new ≡ old
Field (some value) old new = new ≡ value

Field-or_else : {A : Type 0} (o : Option A) (old : A) → Field o old (or_else o old)
Field-or_else none old = refl
Field-or_else (some value) old = refl

-- A password is set as it is, but that an empty one is none.
abbrev Password : Option (Option Text) → Option Text → Option Text → Type 0
Password none old new = new ≡ old
Password (some none) old new = new ≡ none
Password (some (some [])) old new = new ≡ none
Password (some (some (x ∷ xs))) old new = new ≡ some (x ∷ xs)

Password-secret_update :
    (o : Option (Option Text)) (old : Option Text) → Password o old (or_else (secret_update o) old)
unfolding secret_update secret
Password-secret_update none old = refl
Password-secret_update (some none) old = refl
Password-secret_update (some (some [])) old = refl
Password-secret_update (some (some (x ∷ xs))) old = refl

pub record IsMerged {Meta : Type 0} (old : Fields Meta) (updates : Updates Meta) (new : Fields Meta)
    : Type 0 where
  pub name : Field updates.name old.name new.name
  pub location : Field updates.location old.location new.location
  pub host : Field updates.host old.address.host new.address.host
  pub port : Field updates.port old.address.port new.address.port
  pub username : Field updates.username old.address.username new.address.username
  pub password : Password updates.password old.address.password new.address.password
  pub path : Field updates.path old.address.path new.address.path
  pub direct_rtsp_url :
      Field updates.direct_rtsp_url old.address.direct_rtsp_url new.address.direct_rtsp_url
  pub transport : Field updates.transport old.transport new.transport
  pub status : Field updates.status old.status new.status
  pub metadata : Field updates.metadata old.metadata new.metadata
  pub tags : Field updates.tags old.tags new.tags

merged-IsMerged :
    {Meta : Type 0} (old : Fields Meta) (u : Updates Meta) → IsMerged old u (merged old u)
unfolding merged
merged-IsMerged old u = record {
  name = Field-or_else u.name old.name;
  location = Field-or_else u.location old.location;
  host = Field-or_else u.host old.address.host;
  port = Field-or_else u.port old.address.port;
  username = Field-or_else u.username old.address.username;
  password = Password-secret_update u.password old.address.password;
  path = Field-or_else u.path old.address.path;
  direct_rtsp_url = Field-or_else u.direct_rtsp_url old.address.direct_rtsp_url;
  transport = Field-or_else u.transport old.transport;
  status = Field-or_else u.status old.status;
  metadata = Field-or_else u.metadata old.metadata;
  tags = Field-or_else u.tags old.tags;
}

-- A text that is given and not empty.
abbrev Filled : Option Text → Type 0
Filled none = ⊥
Filled (some []) = ⊥
Filled (some (x ∷ xs)) = Unit

abbrev pub HasSource : Address → Type 0
HasSource a = Filled a.direct_rtsp_url ⊎ (Filled a.host × Filled a.path)

is_blank-Filled : (o : Option Text) → (is_blank o ≡ false) ↔ Filled o
is_blank-Filled none = ((λ h. absurd (ground arith)), λ f. absurd f)
is_blank-Filled (some []) = ((λ h. absurd (ground arith)), λ f. absurd f)
is_blank-Filled (some (x ∷ xs)) = ((λ h. tt), λ f. refl)

keeps_source_iff : (a : Address) → (keeps_source a ≡ true) ↔ HasSource a
unfolding keeps_source
keeps_source_iff a =
    let d = is_blank-Filled a.direct_rtsp_url in
    let h = is_blank-Filled a.host in
    let p = is_blank-Filled a.path in
    (
      λ k. elim (Bool-cases (is_blank a.direct_rtsp_url)) [
        | inr f ↦ inl (d.0 f)
        | inl t ↦ inr (h.0 (ground (arith, t, k)), p.0 (ground (arith, t, k)))
      ],
      λ s. elim s [ inl f ↦ ground (arith, d.1 f) | inr (f, g) ↦ ground (arith, h.1 f, p.1 g) ],
    )

-- The ways in which an update ends: `s` is the state in which the camera is read and `s'` the one in
-- which it is written.
pub data Settles {Meta : Type 0}
    (arrange : List (String × Camera Meta) → List (String × Camera Meta))
    (reads writes : Option String) (synced : Bool) (camera_id : String) (updates : Updates Meta)
    (s s' : Site Meta) (r : Reply Error (Camera Meta) × Site Meta) : Type 0 where
  read_refused :
      (cause : String)
      → reads ≡ some cause
      → r ≡ (failed (refused cause), s)
      → Settles arrange reads writes synced camera_id updates s s' r
  missing :
      lookup str_dec camera_id s.cameras ≡ none
      → r ≡ (failed (not_found camera_id), s)
      → Settles arrange reads writes synced camera_id updates s s' r
  without_source :
      (existing : Camera Meta)
      → lookup str_dec camera_id s.cameras ≡ some existing
      → ¬ HasSource (merged existing.fields updates).address
      → r ≡ (failed no_source, s')
      → Settles arrange reads writes synced camera_id updates s s' r
  write_refused :
      (cause : String)
      → writes ≡ some cause
      → r ≡ (failed (refused cause), s')
      → Settles arrange reads writes synced camera_id updates s s' r
  gone :
      lookup str_dec camera_id s'.cameras ≡ none
      → r ≡ (failed (not_found camera_id), s')
      → Settles arrange reads writes synced camera_id updates s s' r
  updated :
      (existing old new : Camera Meta)
      → lookup str_dec camera_id s.cameras ≡ some existing
      → lookup str_dec camera_id s'.cameras ≡ some old
      → IsMerged existing.fields updates new.fields
      → HasSource new.fields.address
      → new.validation_status ≡ old.validation_status
      → new.validation_message ≡ old.validation_message
      → r.0 ≡ done new
      → ((q : String)
          → lookup str_dec q r.1.cameras
            ≡ ite (str_dec q camera_id) (some new) (lookup str_dec q s'.cameras))
      → r.1.config ≡ (if synced then arrange r.1.cameras else s'.config)
      → Settles arrange reads writes synced camera_id updates s s' r

module _ {Meta : Type 0}
    (fetch : List (String × Camera Meta) → ℕ → ℕ → List ((String × Camera Meta) × ℕ))
    (arrange : List (String × Camera Meta) → List (String × Camera Meta)) where
  -- The query lists the whole table, in some order.
  abbrev pub Lists : Type 0
  Lists =
      (t : List (String × Camera Meta))
      → IsPaged (fetch t) (arrange t) × (length (arrange t) ≡ length t)

  pub sync_mediamtx_config_lem :
      Lists
      → (synced : Bool) (s : Site Meta)
      → sync_mediamtx_config fetch synced s
        ≡ (done tt, record s { config = if synced then arrange s.cameras else s.config })
  unfolding sync_mediamtx_config
  sync_mediamtx_config_lem lists false s = refl
  sync_mediamtx_config_lem lists true s = ground (
    arith,
    list_camera_records-all (fetch s.cameras) (arrange s.cameras) (lists s.cameras).0
        (suc (length s.cameras)) (omega arith) (omega (arith, (lists s.cameras).1)),
  )

  row_written :
      (camera_id : String) (f : Camera Meta → Camera Meta) (s : Site Meta) (old : Camera Meta)
      → lookup str_dec camera_id s.cameras ≡ some old
      → update_row camera_id f s ≡ (done (some (f old)), set_row camera_id (f old) s)
  unfolding update_row
  row_written camera_id f s old h = ground (arith, h)

  merged_written :
      Lists
      → (synced : Bool) (camera_id : String) (updates : Updates Meta) (existing : Fields Meta)
        (s : Site Meta) (old : Camera Meta)
      → keeps_source (merged existing updates).address ≡ true
      → lookup str_dec camera_id s.cameras ≡ some old
      → let new = record old { fields = merged existing updates } in
        let cameras = insert str_dec camera_id new s.cameras in
        write_merged fetch none synced camera_id updates existing s ≡ (
          done new,
          record s { cameras = cameras; config = if synced then arrange cameras else s.config },
        )
  unfolding write_merged admitted found set_row
  merged_written lists synced camera_id updates existing s old k h = ground (
    arith,
    k,
    row_written camera_id (λ c. record c { fields = merged existing updates }) s old h,
    sync_mediamtx_config_lem lists synced
        (set_row camera_id (record old { fields = merged existing updates }) s),
  )

  kept-Settles :
      Lists
      → (reads writes : Option String) (synced : Bool) (camera_id : String) (updates : Updates Meta)
        (existing : Camera Meta) (s s' : Site Meta)
      → lookup str_dec camera_id s.cameras ≡ some existing
      → keeps_source (merged existing.fields updates).address ≡ true
      → Settles arrange reads writes synced camera_id updates s s'
          (write_merged fetch writes synced camera_id updates existing.fields s')
  unfolding write_merged admitted found update_row
  kept-Settles lists reads (some cause) synced camera_id updates existing s s' h k =
      write_refused cause refl (ground (arith, k))
  kept-Settles lists reads none synced camera_id updates existing s s' h k =
      elim (Option-cases (lookup str_dec camera_id s'.cameras)) [
        | inl n ↦ gone n (ground (arith, k, n))
        | inr e ↦
            let new = record e.0 { fields = merged existing.fields updates } in
            subst (Settles arrange reads none synced camera_id updates s s')
              (sym (merged_written lists synced camera_id updates existing.fields s' e.0 k e.1))
              (updated existing e.0 new h e.1 (merged-IsMerged existing.fields updates)
                ((keeps_source_iff new.fields.address).0 k) refl refl refl
                (λ q. lookup-insert str_dec camera_id q new s'.cameras) refl)
      ]

  merged-Settles :
      Lists
      → (reads writes : Option String) (synced : Bool) (camera_id : String) (updates : Updates Meta)
        (existing : Camera Meta) (s s' : Site Meta)
      → lookup str_dec camera_id s.cameras ≡ some existing
      → Settles arrange reads writes synced camera_id updates s s'
          (write_merged fetch writes synced camera_id updates existing.fields s')
  unfolding write_merged admitted found update_row
  merged-Settles lists reads writes synced camera_id updates existing s s' h =
      elim (Bool-cases (keeps_source (merged existing.fields updates).address)) [
        | inr n ↦
            without_source existing h
              (λ q. absurd (
                ground (arith, n, (keeps_source_iff (merged existing.fields updates).address).1 q)))
              (ground (arith, n))
        | inl k ↦ kept-Settles lists reads writes synced camera_id updates existing s s' h k
      ]

  -- Whatever other calls do between the read and the write of an update, if the query lists the whole
  -- table: the update fails since PostgreSQL refuses the read or the write, since the camera is missing
  -- at either, or since neither a direct address nor both host and path would be set and not empty,
  -- and then it changes nothing; or every field becomes the one that the request sets, an empty
  -- password being none, and else the one that was read, whatever it was in between, and no other
  -- camera changes. The configuration of MediaMTX is then that of the table
  -- after the update, if it could be written, and is otherwise left as it was.
  pub update_camera-Settles :
      (reads writes : Option String) (synced : Bool) (between : Site Meta → Site Meta)
      (camera_id : String) (updates : Updates Meta) (s : Site Meta)
      → Lists
      → Settles arrange reads writes synced camera_id updates s
          (between s)
          (update_camera fetch reads writes synced between camera_id updates s)
  unfolding update_camera get_camera_record admitted found
  update_camera-Settles (some cause) writes synced between camera_id updates s lists =
      read_refused cause refl refl
  update_camera-Settles none writes synced between camera_id updates s lists =
      elim (Option-cases (lookup str_dec camera_id s.cameras)) [
        | inl n ↦ missing n (ground (arith, n))
        | inr e ↦
            subst (Settles arrange none writes synced camera_id updates s (between s))
              (sym (ground (arith, e.1)))
              (merged-Settles lists none writes synced camera_id updates e.0 s (between s) e.1)
      ]
