-- ===== src/Vault.antt =====
-- app/vault/router.py. `b64encode` is `base64.b64encode`; `sql_lower` and `lower` are those of Users.
pub mod Stored
use super_secure_notes_api.Prelude.{ℕ, zero, suc, Option, none, some, List, [], ◌∷◌, ◌==◌, Bool}
use super_secure_notes_api.Prelude.Text.{Text}
use super_secure_notes_api.Parsers.Ssnv.{VaultHeaderMetadata, parse_vault_header}
use super_secure_notes_api.Errors.{ApiError, error_of, validation_error}
use super_secure_notes_api.Db.Models.{VaultHeader, Db}
use super_secure_notes_api.Db.Table.{find, update}
use super_secure_notes_api.Db.Session.{
  Action, api_error, ◌>>=◌, ◌>>◌, pure, raise, raise_if, lift, query, modify, commit,
}
use super_secure_notes_api.Users.{find_user_by_email}
use super_secure_notes_api.Notes.Service.{or_raise, or_validation_error}
use super_secure_notes_api.Notes.Bodies.{is_empty}

pub record PublicKeyResponse : Type 0 where
  pub public_key : Text
  pub algorithm_id : ℕ

abbrev pub header_not_found : ApiError
header_not_found = error_of 404 "header_not_found" "Vault header not found."

abbrev pub recipient_not_found : ApiError
recipient_not_found = error_of 404 "user_not_found" "Recipient user not found."

abbrev pub public_key_not_found : ApiError
public_key_not_found = error_of 404 "public_key_not_found" "Public key not found."

abbrev pub missing_public_key : ApiError
missing_public_key = validation_error "Vault header must include identity public key."

abbrev pub is_header : ℕ → VaultHeader → Bool
is_header user_id x = x.user_id == user_id

-- `select(VaultHeader).where(VaultHeader.user_id == user_id)`
unfoldable pub find_header : ℕ → Action (Option VaultHeader)
find_header user_id = query λ db. find (is_header user_id) db.vault_headers

unfoldable pub get_vault_header : ℕ → Action (List ℕ)
unfolding find_header
get_vault_header user_id = do
  found ← find_header user_id
  header ← or_raise found header_not_found
  pure header.header_data

-- `metadata.algorithm_id or 1`, where 0 is false too.
abbrev pub or_one : Option ℕ → ℕ
or_one none = 1
or_one (some zero) = 1
or_one (some (suc n)) = suc n

-- The test on `metadata.public_key`.
abbrev pub public_key_of : VaultHeaderMetadata → Action (List ℕ)
public_key_of metadata = or_raise metadata.public_key missing_public_key

-- The branches on `existing`.
unfoldable pub store_header : ℕ → List ℕ → List ℕ → ℕ → Option VaultHeader → Action (Unit {0})
store_header user_id body public_key algorithm_id none = modify λ db. record db {
  vault_headers =
      record {
        user_id = user_id;
        header_data = body;
        public_key = public_key;
        algorithm_id = algorithm_id;
      }
      ∷ db.vault_headers;
}
store_header user_id body public_key algorithm_id (some existing) = modify λ db. record db {
  vault_headers =
      update (is_header user_id)
        (λ x. record x { header_data = body; public_key = public_key; algorithm_id = algorithm_id })
        db.vault_headers;
}

unfoldable pub put_vault_header : ℕ → List ℕ → Action (Unit {0})
unfolding find_header
put_vault_header user_id body = do
  raise_if (is_empty body) (api_error (validation_error "Vault header body is required."))
  metadata ← lift (or_validation_error (parse_vault_header body))
  public_key ← public_key_of metadata
  existing ← find_header user_id
  store_header user_id body public_key (or_one metadata.algorithm_id) existing
  commit

unfoldable pub get_public_key_by_email :
    (List ℕ → Text) → (Text → Text) → (Text → Text) → Text → Action PublicKeyResponse
unfolding find_header find_user_by_email
get_public_key_by_email b64encode sql_lower lower email = do
  recipient ← find_user_by_email sql_lower lower email
  recipient ← or_raise recipient recipient_not_found
  header ← find_header recipient.id
  header ← or_raise header public_key_not_found
  pure (record { public_key = b64encode header.public_key; algorithm_id = header.algorithm_id })
