-- ===== src/Auth/Accounts/Erasure.antt =====
-- app/auth/router.py: the tables after `delete_account`.
use super_secure_notes_api.Prelude.{
  ℕ, ◌≡◌, ◌≢◌, refl, ap, subst, Bool, true, Option, none, some, [], arith, ◌==◌, Bool-cases, inl,
  inr,
}
use super_secure_notes_api.Prelude.Result.{Result, ok, err}
use super_secure_notes_api.Prelude.Text.{Text, text_eq, codes}
use super_secure_notes_api.Db.Models.{User, Db}
use super_secure_notes_api.Db.Table.{select, find}
use super_secure_notes_api.Db.Table.Laws.{select-remove, select-remove_ne, find-remove}
use super_secure_notes_api.Db.Session.{Failure, api_error, run}
use super_secure_notes_api.Auth.{is_user}
use super_secure_notes_api.Auth.Accounts.{
  unknown_user, involves, delete_user, delete_account, get_current_user, check_credentials,
}

deleted :
    (verify_password : Text → Text → Bool) (user : User) (password : Text) (db db' : Db)
    → run (delete_account verify_password user password) db ≡ (ok tt, db')
    → delete_user user.id db ≡ db'
unfolding run delete_account
deleted verify_password user password db db' =
    elim (Bool-cases (verify_password password user.password_hash)) [
      | inr bad ↦ rw bad (λ h. cc)
      | inl good ↦ rw good (λ h. ap (λ (r : Result Failure (Unit {0}) × Db). r.1) h)
    ]

-- No row of the user is left, in any table.
pub record Erased (user : ℕ) (db : Db) : Type 0 where
  pub users : select (is_user user) db.users ≡ []
  pub refresh_tokens : select (λ x. x.user_id == user) db.refresh_tokens ≡ []
  pub vault_headers : select (λ x. x.user_id == user) db.vault_headers ≡ []
  pub notes : select (λ x. x.user_id == user) db.notes ≡ []
  pub note_blobs : select (λ x. x.user_id == user) db.note_blobs ≡ []
  pub note_attachments : select (λ x. x.user_id == user) db.note_attachments ≡ []
  pub attachment_chunks : select (λ x. x.user_id == user) db.attachment_chunks ≡ []
  pub upload_sessions : select (λ x. x.user_id == user) db.upload_sessions ≡ []
  pub note_shares : select (involves user) db.note_shares ≡ []

-- The rows of another user are as they were.
pub record Untouched (other : ℕ) (db db' : Db) : Type 0 where
  pub users : select (is_user other) db'.users ≡ select (is_user other) db.users
  pub refresh_tokens :
      select (λ x. x.user_id == other) db'.refresh_tokens
      ≡ select (λ x. x.user_id == other) db.refresh_tokens
  pub vault_headers :
      select (λ x. x.user_id == other) db'.vault_headers
      ≡ select (λ x. x.user_id == other) db.vault_headers
  pub notes : select (λ x. x.user_id == other) db'.notes ≡ select (λ x. x.user_id == other) db.notes
  pub note_blobs :
      select (λ x. x.user_id == other) db'.note_blobs
      ≡ select (λ x. x.user_id == other) db.note_blobs
  pub note_attachments :
      select (λ x. x.user_id == other) db'.note_attachments
      ≡ select (λ x. x.user_id == other) db.note_attachments
  pub attachment_chunks :
      select (λ x. x.user_id == other) db'.attachment_chunks
      ≡ select (λ x. x.user_id == other) db.attachment_chunks
  pub upload_sessions :
      select (λ x. x.user_id == other) db'.upload_sessions
      ≡ select (λ x. x.user_id == other) db.upload_sessions

delete_user-Erased : (user : ℕ) (db : Db) → Erased user (delete_user user db)
unfolding delete_user
delete_user-Erased user db = record {
  users = select-remove _ _ db.users (λ x hit. hit);
  refresh_tokens = select-remove _ _ db.refresh_tokens (λ x hit. hit);
  vault_headers = select-remove _ _ db.vault_headers (λ x hit. hit);
  notes = select-remove _ _ db.notes (λ x hit. hit);
  note_blobs = select-remove _ _ db.note_blobs (λ x hit. hit);
  note_attachments = select-remove _ _ db.note_attachments (λ x hit. hit);
  attachment_chunks = select-remove _ _ db.attachment_chunks (λ x hit. hit);
  upload_sessions = select-remove _ _ db.upload_sessions (λ x hit. hit);
  note_shares = select-remove _ _ db.note_shares (λ x hit. hit);
}

delete_user-Untouched :
    (user other : ℕ) (db : Db) → other ≢ user → Untouched other db (delete_user user db)
unfolding delete_user
delete_user-Untouched user other db ne = record {
  users = select-remove_ne _ _ db.users (λ x hit. ground arith);
  refresh_tokens = select-remove_ne _ _ db.refresh_tokens (λ x hit. ground arith);
  vault_headers = select-remove_ne _ _ db.vault_headers (λ x hit. ground arith);
  notes = select-remove_ne _ _ db.notes (λ x hit. ground arith);
  note_blobs = select-remove_ne _ _ db.note_blobs (λ x hit. ground arith);
  note_attachments = select-remove_ne _ _ db.note_attachments (λ x hit. ground arith);
  attachment_chunks = select-remove_ne _ _ db.attachment_chunks (λ x hit. ground arith);
  upload_sessions = select-remove_ne _ _ db.upload_sessions (λ x hit. ground arith);
}

-- After `delete_account` no row of the user is left in any table that records a user, no share from or
-- to the user is left, the rows of another user in those tables, shares apart, are as they were, and an
-- access token of the user is refused.
pub delete_account-Erased :
    (verify_password : Text → Text → Bool) (lower : Text → Text) (decode_jwt : Text → Option ℕ)
    (user : User) (password : Text) (db db' : Db) (other : ℕ) (scheme token : Text)
    → run (delete_account verify_password user password) db ≡ (ok tt, db')
    → other ≢ user.id
    → text_eq (lower scheme) (codes "bearer") ≡ true
    → decode_jwt token ≡ some user.id
    → Erased user.id db'
      × Untouched other db db'
      × (run (get_current_user lower decode_jwt (some (scheme, token))) db'
          ≡ (err (api_error unknown_user), db'))
unfolding run get_current_user check_credentials delete_user
delete_account-Erased verify_password lower decode_jwt user password db db' other scheme token h ne
      bearer decoded =
    let same = deleted verify_password user password db db' h in
    let gone = find-remove (is_user user.id) (is_user user.id) db.users (λ x hit. hit) in
    let gone' : find (is_user user.id) db'.users ≡ none =
      subst (λ (d : Db). find (is_user user.id) d.users ≡ none) same gone in
    (
      subst (Erased user.id) same (delete_user-Erased user.id db),
      subst (Untouched other db) same (delete_user-Untouched user.id other db ne),
      rw (bearer, decoded, gone') refl,
    )
