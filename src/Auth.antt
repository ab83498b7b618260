-- ===== src/Auth.antt =====
-- app/auth/tokens.py: the refresh tokens; app/auth/router.py: `refresh` and `logout`. A token is the
-- UTF-8 bytes of its text. `sha256` is `hashlib.sha256(…).hexdigest()` and `encode_jwt` the `jwt.encode`
-- of the claims `sub`, `iat` and `exp`, with the secret and the algorithm of the settings in it. The
-- readings of the clock, `secrets.token_urlsafe(32)` and the id of a new row are arguments.
pub mod Rotation
pub mod Accounts
use super_secure_notes_api.Prelude.{
  ℕ, ◌+◌, ◌*◌, Bool, true, false, not, ◌&&◌, ◌||◌, Option, none, some, List, [], ◌∷◌, ltb, ◌==◌,
}
use super_secure_notes_api.Prelude.Text.{Text, text_eq}
use super_secure_notes_api.Errors.{ApiError, error_of}
use super_secure_notes_api.Db.Models.{User, RefreshToken, Db}
use super_secure_notes_api.Db.Table.{find, exists, update}
use super_secure_notes_api.Db.Session.{
  Action, api_error, integrity_error, no_result_found, ◌>>=◌, ◌>>◌, pure, raise, raise_if, query,
  modify, commit,
}
use super_secure_notes_api.Notes.Queries.{is_none}

-- The settings of app/config.py that are read here.
pub record Settings : Type 0 where
  pub access_token_ttl_seconds : ℕ
  pub refresh_token_ttl_days : ℕ

-- `RefreshResponse`
pub record RefreshResponse : Type 0 where
  pub access_token : Text
  pub refresh_token : List ℕ
  pub expires_in : ℕ

abbrev pub invalid_refresh_token : ApiError
invalid_refresh_token = error_of 401 "unauthorized" "Invalid refresh token."

abbrev pub expired_refresh_token : ApiError
expired_refresh_token = error_of 401 "unauthorized" "Expired refresh token."

abbrev pub has_hash : Text → RefreshToken → Bool
has_hash token_hash x = text_eq x.token_hash token_hash

abbrev pub is_token : ℕ → RefreshToken → Bool
is_token id x = x.id == id

abbrev pub is_user : ℕ → User → Bool
is_user id x = x.id == id

-- `RefreshToken.user_id == user_id, RefreshToken.revoked_at.is_(None)`
abbrev pub is_unrevoked : ℕ → RefreshToken → Bool
is_unrevoked user_id x = x.user_id == user_id && is_none x.revoked_at

-- Both the id and the hash are unique.
unfoldable pub add_token : RefreshToken → Action (Unit {0})
add_token x = do
  taken ← query λ db. exists (is_token x.id) db.refresh_tokens
  raise_if taken integrity_error
  taken ← query λ db. exists (has_hash x.token_hash) db.refresh_tokens
  raise_if taken integrity_error
  modify λ db. record db { refresh_tokens = x ∷ db.refresh_tokens }

-- `stored is None or stored.revoked_at is not None`
unfoldable pub check_stored : Option RefreshToken → Action RefreshToken
check_stored none = raise (api_error invalid_refresh_token)
check_stored (some stored) = do
  raise_if (not (is_none stored.revoked_at)) (api_error invalid_refresh_token)
  pure stored

-- `scalar_one()`
unfoldable pub the_one : {A : Type 0} → Option A → Action A
the_one none = raise no_result_found
the_one (some a) = pure a

unfoldable pub revoke_all_refresh_tokens : ℕ → ℕ → Action (Unit {0})
revoke_all_refresh_tokens now user_id = do
  modify λ db. record db {
    refresh_tokens =
        update (is_unrevoked user_id) (λ x. record x { revoked_at = some now }) db.refresh_tokens;
  }
  commit

-- The route only calls it.
unfoldable pub logout : ℕ → ℕ → Action (Unit {0})
logout now user_id = revoke_all_refresh_tokens now user_id

-- The claims of an access token; `sub` may be missing in a token that another party signed.
pub record Claims : Type 0 where
  pub sub : Option Text
  pub iat : ℕ
  pub exp : ℕ

-- `jwt.decode` at a time, and `UUID(…)`, which is none where it raises `ValueError`, are parameters. The
-- result is none where the function raises its `APIError`.
unfoldable pub decode_access_token :
    (ℕ → Text → Option Claims) → (Text → Option ℕ) → ℕ → Text → Option ℕ
decode_access_token jwt_decode uuid now token = elim (jwt_decode now token) [
  | none ↦ none
  | some payload ↦ elim payload.sub [ none ↦ none | some sub ↦ uuid sub ]
]

abbrev pub hash_refresh_token : (List ℕ → Text) → List ℕ → Text
hash_refresh_token sha256 token = sha256 token

module _ (sha256 : List ℕ → Text) (encode_jwt : ℕ → ℕ → ℕ → Text) (settings : Settings) where
  abbrev pub create_access_token : ℕ → ℕ → Text
  create_access_token now user_id = encode_jwt user_id now (now + settings.access_token_ttl_seconds)

  unfoldable pub create_refresh_token : ℕ → ℕ → List ℕ → ℕ → Action (List ℕ)
  create_refresh_token now new_id raw_token user_id = do
    add_token (record {
      id = new_id;
      user_id = user_id;
      token_hash = hash_refresh_token sha256 raw_token;
      expires_at = now + settings.refresh_token_ttl_days * 86400;
      revoked_at = none;
    })
    pure raw_token

  -- The clock is read for the test, for `revoked_at`, for the new token and for the access token.
  unfoldable pub rotate_refresh_token :
      ℕ → ℕ → ℕ → ℕ → ℕ → List ℕ → List ℕ → Action (Text × (List ℕ × User))
  rotate_refresh_token now now₁ now₂ now₃ new_id new_token raw_token = do
    let token_hash = hash_refresh_token sha256 raw_token
    found ← query λ db. find (has_hash token_hash) db.refresh_tokens
    stored ← check_stored found
    raise_if (ltb stored.expires_at now) (api_error expired_refresh_token)
    user ← query λ db. find (is_user stored.user_id) db.users
    user ← the_one user
    modify λ db. record db {
      refresh_tokens =
          update (is_token stored.id) (λ x. record x { revoked_at = some now₁ }) db.refresh_tokens;
    }
    new_raw ← create_refresh_token now₂ new_id new_token user.id
    let access_token = create_access_token now₃ user.id
    commit
    pure (access_token, (new_raw, user))

  unfoldable pub refresh : ℕ → ℕ → ℕ → ℕ → ℕ → List ℕ → List ℕ → Action RefreshResponse
  refresh now now₁ now₂ now₃ new_id new_token raw_token = do
    result ← rotate_refresh_token now now₁ now₂ now₃ new_id new_token raw_token
    pure (record {
      access_token = result.0;
      refresh_token = result.1.0;
      expires_in = settings.access_token_ttl_seconds;
    })
