-- ===== src/Auth/Accounts.antt =====
-- app/auth/router.py: `register`, `login` and `delete_account`; app/auth/dependencies.py:
-- `get_current_user`. `hash_password` is `bcrypt.hashpw` with the salt of `bcrypt.gensalt()` as its
-- second argument, `verify_password` is `bcrypt.checkpw`, and `decode_jwt` stands for
-- `decode_access_token` at the time of the request.
pub mod Erasure
pub mod Login
pub mod Access
pub mod Registration
use super_secure_notes_api.Prelude.{
  ℕ, Bool, true, false, not, ◌&&◌, ◌||◌, Option, none, some, List, [], ◌∷◌, ◌==◌,
}
use super_secure_notes_api.Prelude.Text.{Text, text_eq, codes}
use super_secure_notes_api.Errors.{ApiError, error_of}
use super_secure_notes_api.Db.Models.{
  User, RefreshToken, VaultHeader, Note, NoteBlob, NoteAttachment, AttachmentChunk, UploadSession,
  UploadChunk, NoteShare, Db,
}
use super_secure_notes_api.Db.Table.{find, exists, remove}
use super_secure_notes_api.Db.Session.{
  Action, api_error, integrity_error, ◌>>=◌, ◌>>◌, pure, raise, raise_if, query, modify, commit,
}
use super_secure_notes_api.Notes.Queries.{is_none}
use super_secure_notes_api.Notes.Service.{or_raise}
use super_secure_notes_api.Auth.{Settings, is_user, create_access_token, create_refresh_token}

pub record UserResponse : Type 0 where
  pub id : ℕ
  pub email : Text
  pub created_at : ℕ

pub record AuthSuccessResponse : Type 0 where
  pub user : UserResponse
  pub access_token : Text
  pub refresh_token : List ℕ
  pub expires_in : ℕ

abbrev pub invalid_credentials : ApiError
invalid_credentials = error_of 401 "invalid_credentials" "Invalid email or password."

abbrev pub missing_header : ApiError
missing_header = error_of 401 "unauthorized" "Missing or invalid authorization header."

abbrev pub invalid_access_token : ApiError
invalid_access_token = error_of 401 "unauthorized" "Invalid or expired access token."

abbrev pub unknown_user : ApiError
unknown_user = error_of 401 "unauthorized" "User not found."

-- `_auth_response`
unfoldable pub auth_response : Settings → User → Text → List ℕ → AuthSuccessResponse
auth_response settings user access_token refresh_token = record {
  user = record { id = user.id; email = user.email; created_at = user.created_at };
  access_token = access_token;
  refresh_token = refresh_token;
  expires_in = settings.access_token_ttl_seconds;
}

-- The id and the email are unique.
unfoldable pub add_user : User → Action (Unit {0})
add_user x = do
  taken ← query λ db. exists (is_user x.id) db.users
  raise_if taken integrity_error
  taken ← query λ db. exists (λ y. text_eq y.email x.email) db.users
  raise_if taken integrity_error
  modify λ db. record db { users = x ∷ db.users }

-- The credentials are the scheme and the token of the `Authorization` header.
unfoldable pub check_credentials :
    (Text → Text) → (Text → Option ℕ) → Option (Text × Text) → Action ℕ
check_credentials lower decode_jwt none = raise (api_error missing_header)
check_credentials lower decode_jwt (some (scheme, token)) = do
  raise_if (not (text_eq (lower scheme) (codes "bearer"))) (api_error missing_header)
  or_raise (decode_jwt token) invalid_access_token

unfoldable pub get_current_user :
    (Text → Text) → (Text → Option ℕ) → Option (Text × Text) → Action User
get_current_user lower decode_jwt credentials = do
  user_id ← check_credentials lower decode_jwt credentials
  user ← query λ db. find (is_user user_id) db.users
  or_raise user unknown_user

-- `user is None or not verify_password(…)`
unfoldable pub check_password : (Text → Text → Bool) → Text → Option User → Action User
check_password verify_password password none = raise (api_error invalid_credentials)
check_password verify_password password (some user) = do
  raise_if (not (verify_password password user.password_hash)) (api_error invalid_credentials)
  pure user

module _ (sha256 : List ℕ → Text) (encode_jwt : ℕ → ℕ → ℕ → Text) (settings : Settings)
    (sql_lower lower : Text → Text) where
  -- The steps after the user is known: the clock is read for the access token and for the new refresh
  -- token.
  unfoldable pub issue_tokens : ℕ → ℕ → ℕ → List ℕ → User → Action AuthSuccessResponse
  issue_tokens now now₁ token_id raw_token user = do
    let access_token = create_access_token sha256 encode_jwt settings now user.id
    refresh_token ← create_refresh_token sha256 encode_jwt settings now₁ token_id raw_token user.id
    commit
    pure (auth_response settings user access_token refresh_token)

  -- `created_at` is what the database fills in.
  unfoldable pub register :
      (Text → Text → Text)
      → ℕ
      → ℕ
      → ℕ
      → ℕ
      → ℕ
      → List ℕ
      → Text
      → Text
      → Text
      → Action AuthSuccessResponse
  register hash_password created_at now now₁ user_id token_id raw_token salt email password = do
    existing ← query λ db. find (λ x. text_eq (sql_lower x.email) (lower email)) db.users
    raise_if (not (is_none existing))
        (api_error (error_of 409 "email_already_exists" "Email is already registered."))
    let user : User = record {
      id = user_id;
      email = lower email;
      password_hash = hash_password password salt;
      created_at = created_at;
    }
    add_user user
    commit
    issue_tokens now now₁ token_id raw_token user

  unfoldable pub login :
      (Text → Text → Bool) → ℕ → ℕ → ℕ → List ℕ → Text → Text → Action AuthSuccessResponse
  login verify_password now now₁ token_id raw_token email password = do
    found ← query λ db. find (λ x. text_eq (sql_lower x.email) (lower email)) db.users
    user ← check_password verify_password password found
    issue_tokens now now₁ token_id raw_token user

-- The rows that `db.delete(user)` takes: the relationships of `User`, of `Note`, of `NoteAttachment`
-- and of `UploadSession` cascade, and the foreign keys of `note_shares` have `ON DELETE CASCADE`.
abbrev pub is_session_of : ℕ → ℕ → UploadSession → Bool
is_session_of user_id upload_id x = x.user_id == user_id && x.id == upload_id

abbrev pub involves : ℕ → NoteShare → Bool
involves user_id x = x.recipient_id == user_id || x.owner_id == user_id

unfoldable pub delete_user : ℕ → Db → Db
delete_user user_id db = record db {
  users = remove (is_user user_id) db.users;
  refresh_tokens = remove (λ x. x.user_id == user_id) db.refresh_tokens;
  vault_headers = remove (λ x. x.user_id == user_id) db.vault_headers;
  notes = remove (λ x. x.user_id == user_id) db.notes;
  note_blobs = remove (λ x. x.user_id == user_id) db.note_blobs;
  note_attachments = remove (λ x. x.user_id == user_id) db.note_attachments;
  attachment_chunks = remove (λ x. x.user_id == user_id) db.attachment_chunks;
  upload_chunks =
      remove (λ c. exists (is_session_of user_id c.upload_id) db.upload_sessions) db.upload_chunks;
  upload_sessions = remove (λ x. x.user_id == user_id) db.upload_sessions;
  note_shares = remove (involves user_id) db.note_shares;
}

-- `user` is what `get_current_user` gave.
unfoldable pub delete_account : (Text → Text → Bool) → User → Text → Action (Unit {0})
delete_account verify_password user password = do
  raise_if (not (verify_password password user.password_hash))
      (api_error (error_of 401 "invalid_credentials" "Invalid email or password."))
  modify (delete_user user.id)
  commit
