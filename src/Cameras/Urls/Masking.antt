-- ===== src/Cameras/Urls/Masking.antt =====
-- The preview of a camera's address in camera_service.py, against its password.
use mathlib.Core.List.{append_assoc}
use ai_intelligence_theft_de.Base.{
  ℕ, true, false, ◌||◌, [], ◌∷◌, ◌++◌, Option, none, some, if◌then◌else◌, or_else, ◌≡◌, refl, ap,
  ◌∙◌, arith,
}
use ai_intelligence_theft_de.Cameras.Urls.{
  Text, colon, at_sign, stars, rtsp, scheme_end, has, split_at, split_scheme, is_blank,
  credentials_of, location_of, build_rtsp_url, mask_credentials, mask_rtsp_url, preview,
}

-- What is documented of `quote` with `safe=""`: it leaves neither "@" nor ":".
pub record IsQuote (quote : Text → Text) : Type 0 where
  pub without_at : (t : Text) → has at_sign (quote t) ≡ false
  pub without_colon : (t : Text) → has colon (quote t) ≡ false

split_at-append :
    (c : ℕ) (xs ys : Text) → has c xs ≡ false → split_at c (xs ++ c ∷ ys) ≡ some (xs, ys)
unfolding split_at
split_at-append c [] ys h = ground arith
split_at-append c (x ∷ xs) ys h = ground (arith, split_at-append c xs ys)

split_at-absent : (c : ℕ) (xs : Text) → has c xs ≡ false → split_at c xs ≡ none
unfolding split_at
split_at-absent c [] h = refl
split_at-absent c (x ∷ xs) h = ground (arith, split_at-absent c xs)

has-append : (c : ℕ) (xs ys : Text) → has c (xs ++ ys) ≡ (has c xs || has c ys)
has-append c [] ys = refl
has-append c (x ∷ xs) ys = ground (arith, has-append c xs ys)

-- An address with credentials, masked.
mask-built :
    (credentials location : Text)
    → has at_sign credentials ≡ false
    → mask_rtsp_url (rtsp ++ scheme_end ++ (credentials ++ at_sign ∷ location))
      ≡ some (mask_credentials rtsp credentials location)
unfolding mask_rtsp_url split_scheme
mask-built credentials location h = ground (
  arith,
  has-append at_sign credentials (at_sign ∷ location),
  split_at-append at_sign credentials location h,
)

-- What is shown of an address that is built from a user name and perhaps a password.
abbrev pub shown : (Text → Text) → Text → Option Text → Text → Text
shown quote user password location =
    if is_blank password
    then rtsp ++ scheme_end ++ (stars ++ at_sign ∷ location)
    else rtsp ++ scheme_end ++ (quote user ++ colon ∷ (stars ++ at_sign ∷ location))

masked :
    (credentials location : Text)
    → has at_sign credentials ≡ false
    → mask_rtsp_url (rtsp ++ scheme_end ++ ((credentials ++ at_sign ∷ []) ++ location))
      ≡ some (mask_credentials rtsp credentials location)
masked credentials location h =
    ap (λ t. mask_rtsp_url (rtsp ++ scheme_end ++ t))
      (append_assoc credentials (at_sign ∷ []) location)
    ∙ mask-built credentials location h

module _ (quote : Text → Text) (digits : ℕ → Text) (q : IsQuote quote) where
  masked_user :
      (t location : Text)
      → mask_credentials rtsp (quote t ++ []) location ≡ shown quote t none location
  unfolding mask_credentials
  masked_user t location = ground (
    arith,
    split_at-absent colon (quote t ++ []),
    has-append colon (quote t) [],
    q.without_colon t,
  )

  masked_password :
      (t location : Text) (y : ℕ) (ys : Text)
      → mask_credentials rtsp (quote t ++ colon ∷ quote (y ∷ ys)) location
        ≡ shown quote t (some (y ∷ ys)) location
  unfolding mask_credentials
  masked_password t location y ys =
      ground (arith, split_at-append colon (quote t) (quote (y ∷ ys)) (q.without_colon t))

  user_without_at : (t : Text) → has at_sign (quote t ++ []) ≡ false
  user_without_at t = ground (arith, has-append at_sign (quote t) [], q.without_at t)

  both_without_at : (t ps : Text) → has at_sign (quote t ++ colon ∷ quote ps) ≡ false
  both_without_at t ps =
      ground
        (arith, has-append at_sign (quote t) (colon ∷ quote ps), q.without_at t, q.without_at ps)

  -- The masked address of a user, with and without a password.
  mask-credentials_of :
      (x : ℕ) (user location : Text) (password : Option Text)
      → mask_rtsp_url (
          rtsp
          ++ scheme_end
          ++ (credentials_of quote digits (some (x ∷ user)) password ++ location))
        ≡ some (shown quote (x ∷ user) password location)
  unfolding credentials_of
  mask-credentials_of x user location none =
      masked (quote (x ∷ user) ++ []) location (user_without_at (x ∷ user))
      ∙ ap some (masked_user (x ∷ user) location)
  mask-credentials_of x user location (some []) =
      masked (quote (x ∷ user) ++ []) location (user_without_at (x ∷ user))
      ∙ ap some (masked_user (x ∷ user) location)
  mask-credentials_of x user location (some (y ∷ ys)) =
      masked (quote (x ∷ user) ++ colon ∷ quote (y ∷ ys)) location
        (both_without_at (x ∷ user) (y ∷ ys))
      ∙ ap some (masked_password (x ∷ user) location y ys)

-- The preview of a camera with a host, a path and a user name, and no direct address, shows the quoted user name, only if a
-- password is set, and four stars in the place of the password: of the password itself it depends on
-- nothing but whether there is one.
pub preview-shown :
    (quote : Text → Text) (digits : ℕ → Text)
    → IsQuote quote
    → (x : ℕ) (user host path : Text) (port : Option ℕ) (password direct : Option Text)
    → is_blank direct ≡ true
    → preview quote digits (record {
      host = some host;
      port = port;
      username = some (x ∷ user);
      password = password;
      path = some path;
      direct_rtsp_url = direct;
    })
      ≡ shown quote (x ∷ user) password (location_of quote digits host port path)
unfolding preview build_rtsp_url
preview-shown quote digits q x user host path port password none e =
    ap (λ o. or_else o [])
      (mask-credentials_of quote digits q x user (location_of quote digits host port path) password)
preview-shown quote digits q x user host path port password (some []) e =
    ap (λ o. or_else o [])
      (mask-credentials_of quote digits q x user (location_of quote digits host port path) password)
preview-shown quote digits q x user host path port password (some (y ∷ ys)) e = cc
