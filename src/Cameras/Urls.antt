-- ===== src/Cameras/Urls.antt =====
-- backend/src/utils/ffmpeg.py: the RTSP address of a camera, and its form without the password. A text
-- is the list of its code points. `quote` is urllib's, and `digits` prints a number.
pub mod Masking
use ai_intelligence_theft_de.Base.{
  ℕ, zero, suc, String, Bool, true, false, not, ◌&&◌, ◌||◌, List, [], ◌∷◌, ◌++◌, Option, none, some,
  ◌==◌, if◌then◌else◌, or_else, map_some, is_some,
}

abbrev pub Text : Type 0
Text = List ℕ

-- "/", ":", "@" and "****".
abbrev pub slash : ℕ
slash = 47

abbrev pub colon : ℕ
colon = 58

abbrev pub at_sign : ℕ
at_sign = 64

abbrev pub stars : Text
stars = 42 ∷ 42 ∷ 42 ∷ 42 ∷ []

-- "rtsp"
abbrev pub rtsp : Text
rtsp = 114 ∷ 116 ∷ 115 ∷ 112 ∷ []

abbrev pub scheme_end : Text
scheme_end = colon ∷ slash ∷ slash ∷ []

-- `c in text`
abbrev pub has : ℕ → Text → Bool
has c [] = false
has c (x ∷ xs) = (x == c) || has c xs

-- `text.split(c, maxsplit=1)` with two parts; `none` where `c` does not occur.
unfoldable pub split_at : ℕ → Text → Option (Text × Text)
split_at c [] = none
split_at c (x ∷ xs) =
    let rest = split_at c xs in
    if x == c then some ([], xs) else map_some (λ p. (x ∷ p.0, p.1)) rest

abbrev pub starts_slashes : Text → Bool
starts_slashes [] = false
starts_slashes (x ∷ []) = false
starts_slashes (x ∷ y ∷ xs) = (x == slash) && (y == slash)

abbrev pub drop_two : Text → Text
drop_two [] = []
drop_two (x ∷ []) = []
drop_two (x ∷ y ∷ xs) = xs

-- `url.split("://", maxsplit=1)`
unfoldable pub split_scheme : Text → Option (Text × Text)
split_scheme [] = none
split_scheme (x ∷ xs) =
    let rest = split_scheme xs in
    if (x == colon) && starts_slashes xs
    then some ([], drop_two xs)
    else map_some (λ p. (x ∷ p.0, p.1)) rest

unfoldable pub normalize_camera_path : Text → Text
normalize_camera_path [] = slash ∷ []
normalize_camera_path (x ∷ xs) = if x == slash then x ∷ xs else slash ∷ x ∷ xs

abbrev pub is_blank : Option Text → Bool
is_blank none = true
is_blank (some []) = true
is_blank (some (x ∷ xs)) = false

-- What the address is built from. A port of 0 counts as none.
pub record Address : Type 0 where
  pub host : Option Text
  pub port : Option ℕ
  pub username : Option Text
  pub password : Option Text
  pub path : Option Text
  pub direct_rtsp_url : Option Text

module _ (quote : Text → Text) (digits : ℕ → Text) where
  unfoldable pub credentials_of : Option Text → Option Text → Text
  credentials_of none password = []
  credentials_of (some []) password = []
  credentials_of (some (x ∷ xs)) password =
      (quote (x ∷ xs) ++ (if is_blank password then [] else colon ∷ quote (or_else password [])))
      ++ at_sign ∷ []

  abbrev pub resolved_port : Option ℕ → ℕ
  resolved_port none = 554
  resolved_port (some zero) = 554
  resolved_port (some (suc n)) = suc n

  -- All that follows the credentials.
  unfoldable pub location_of : Text → Option ℕ → Text → Text
  location_of host port path =
      host ++ colon ∷ (digits (resolved_port port) ++ normalize_camera_path path)

  abbrev components : Address → Option Text → Option Text → Option Text
  components a none path = none
  components a (some host) none = none
  components a (some host) (some path) =
      some (
        rtsp
        ++ scheme_end
        ++ (credentials_of a.username a.password ++ location_of host a.port path))

  -- `none` is the ValueError.
  unfoldable pub build_rtsp_url : Address → Option Text
  build_rtsp_url a =
      if is_blank a.direct_rtsp_url then components a a.host a.path else a.direct_rtsp_url

-- The form with "****": the user name, if there is a password beside it, stays.
unfoldable pub mask_credentials : Text → Text → Text → Text
mask_credentials prefix credentials host_path = elim (split_at colon credentials) [
  | some (user, password) ↦ prefix ++ scheme_end ++ (user ++ colon ∷ (stars ++ at_sign ∷ host_path))
  | none ↦ prefix ++ scheme_end ++ (stars ++ at_sign ∷ host_path)
]

-- `none` is the ValueError of an address with "@" before "://" alone.
unfoldable pub mask_rtsp_url : Text → Option Text
mask_rtsp_url url = if not (has at_sign url) then some url else (elim (split_scheme url) [
  | none ↦ some url
  | some (prefix, rest) ↦ elim (split_at at_sign rest) [
    | none ↦ none
    | some (credentials, host_path) ↦ some (mask_credentials prefix credentials host_path)
  ]
])

-- `_to_response`: the preview, empty where an error was raised.
unfoldable pub preview : (Text → Text) → (ℕ → Text) → Address → Text
preview quote digits a = elim (build_rtsp_url quote digits a) [
  | none ↦ []
  | some url ↦ or_else (mask_rtsp_url url) []
]
