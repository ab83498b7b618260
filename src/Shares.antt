-- ===== src/Shares.antt =====
-- app/shares/router.py: the sharing routes; app/shares/schemas.py: `decode_wrapped_fek`;
-- The parameters are `hashlib.sha256(…).hexdigest()`, `base64.b64encode` and
-- `base64.b64decode` with `validate=True` (none for the error), `str.lower` and the `lower` of SQL.
-- The id of a new share and its `shared_at`, which the database fills in, are arguments.
pub mod Access
pub mod Grant
pub mod Listing
use super_secure_notes_api.Prelude.{
  ℕ, Bool, true, false, not, ◌&&◌, Option, none, some, List, [], ◌∷◌, map, ◌==◌,
}
use super_secure_notes_api.Prelude.Int.{ℤ}
use super_secure_notes_api.Prelude.Result.{Result, ok, err}
use super_secure_notes_api.Prelude.Text.{Text, text_eq}
use super_secure_notes_api.Errors.{ApiError, error_of, validation_error, note_not_found}
use super_secure_notes_api.Db.Models.{User, NoteShare, Db}
use super_secure_notes_api.Db.Table.{find, exists, remove}
use super_secure_notes_api.Db.Session.{
  Action, api_error, integrity_error, ◌>>=◌, ◌>>◌, pure, raise, raise_if, lift, query, modify,
  commit,
}
use super_secure_notes_api.Users.{find_user_by_email}
use super_secure_notes_api.Notes.Etag.{compute_etag}
use super_secure_notes_api.Notes.Schemas.{AttachmentSummaryResponse, ContentResponse}
use super_secure_notes_api.Notes.Queries.{
  is_none, get_active_note, get_note_blob, list_note_attachments,
}
use super_secure_notes_api.Notes.Service.{or_raise}
use super_secure_notes_api.Notes.Attachments.{or_api_error, attachment_to_summary, read_chunk}

pub record ShareNoteResponse : Type 0 where
  pub share_id : ℕ
  pub recipient_email : Text
  pub shared_at : ℕ

pub record SharedNoteDownloadResponse : Type 0 where
  pub note_id : ℕ
  pub wrapped_fek : Text
  pub body : Text

abbrev pub shared_note_not_found : ApiError
shared_note_not_found = error_of 404 "share_not_found" "Shared note not found."

abbrev pub shared_body_not_found : ApiError
shared_body_not_found = error_of 404 "share_not_found" "Shared note body not found."

abbrev pub share_not_found : ApiError
share_not_found = error_of 404 "share_not_found" "Share not found."

-- `NoteShare.recipient_id == recipient_id, NoteShare.note_id == note_id`
abbrev pub is_shared : ℕ → ℕ → NoteShare → Bool
is_shared recipient_id note_id x = x.recipient_id == recipient_id && x.note_id == note_id

abbrev pub is_share_of : ℕ → ℕ → ℕ → NoteShare → Bool
is_share_of note_id owner_id recipient_id x =
    x.note_id == note_id && (x.owner_id == owner_id && x.recipient_id == recipient_id)

abbrev pub is_share : ℕ → NoteShare → Bool
is_share id x = x.id == id

unfoldable pub get_recipient_share : ℕ → ℕ → Action (Option NoteShare)
get_recipient_share recipient_id note_id =
    query λ db. find (is_shared recipient_id note_id) db.note_shares

-- `db.delete(share)`
unfoldable pub delete_share : NoteShare → Action (Unit {0})
delete_share share =
    modify λ db. record db { note_shares = remove (is_share share.id) db.note_shares }

-- The id is unique, and so is the pair of the note and the recipient.
unfoldable pub add_share : NoteShare → Action (Unit {0})
add_share x = do
  taken ← query λ db. exists (is_share x.id) db.note_shares
  raise_if taken integrity_error
  taken ← query λ db. exists (is_shared x.recipient_id x.note_id) db.note_shares
  raise_if taken integrity_error
  modify λ db. record db { note_shares = x ∷ db.note_shares }

unfoldable pub remove_shared_note : ℕ → ℕ → Action (Unit {0})
unfolding get_recipient_share delete_share
remove_shared_note user_id note_id = do
  share ← get_recipient_share user_id note_id
  share ← or_raise share shared_note_not_found
  delete_share share
  commit

unfoldable pub list_shared_attachments : ℕ → ℕ → Action (List AttachmentSummaryResponse)
unfolding get_recipient_share list_note_attachments
list_shared_attachments user_id note_id = do
  share ← get_recipient_share user_id note_id
  share ← or_raise share shared_note_not_found
  attachments ← list_note_attachments share.owner_id note_id
  pure (map attachment_to_summary attachments)

unfoldable pub get_shared_attachment_chunk : ℕ → ℕ → ℕ → ℤ → Action ContentResponse
unfolding get_recipient_share
get_shared_attachment_chunk user_id note_id attachment_id chunk_index = do
  share ← get_recipient_share user_id note_id
  share ← or_raise share shared_note_not_found
  read_chunk share.owner_id note_id attachment_id chunk_index

unfoldable pub get_shared_note_body : (List ℕ → Text) → ℕ → ℕ → Action ContentResponse
unfolding get_recipient_share get_note_blob
get_shared_note_body sha256 user_id note_id = do
  share ← get_recipient_share user_id note_id
  share ← or_raise share shared_note_not_found
  blob ← get_note_blob share.owner_id note_id
  blob ← or_raise blob shared_body_not_found
  pure (record { content = blob.content; etag = compute_etag sha256 blob.content })

unfoldable pub get_shared_note : (List ℕ → Text) → ℕ → ℕ → Action SharedNoteDownloadResponse
unfolding get_recipient_share get_note_blob
get_shared_note b64encode user_id note_id = do
  share ← get_recipient_share user_id note_id
  share ← or_raise share shared_note_not_found
  blob ← get_note_blob share.owner_id note_id
  blob ← or_raise blob shared_body_not_found
  pure (record {
    note_id = note_id;
    wrapped_fek = b64encode share.wrapped_fek;
    body = b64encode blob.content;
  })

-- The two `ValueError`s, as the `APIError`s that `share_note` turns them into.
unfoldable pub decode_wrapped_fek : (Text → Option (List ℕ)) → Text → Result ApiError (List ℕ)
decode_wrapped_fek b64decode value = elim (b64decode value) [
  | none ↦ err (validation_error "Invalid base64 wrapped FEK.")
  | some [] ↦ err (validation_error "Wrapped FEK must not be empty.")
  | some (b ∷ bytes) ↦ ok (b ∷ bytes)
]

module _ (sql_lower lower : Text → Text) where
  unfoldable pub share_note :
      (Text → Option (List ℕ)) → ℕ → ℕ → ℕ → ℕ → Text → Text → Action ShareNoteResponse
  unfolding get_active_note add_share
  share_note b64decode shared_at new_id user_id note_id recipient_email wrapped_fek = do
    note ← get_active_note user_id note_id
    _ ← or_raise note note_not_found
    recipient ← find_user_by_email sql_lower lower recipient_email
    recipient ← or_raise recipient (error_of 404 "user_not_found" "Recipient user not found.")
    raise_if (recipient.id == user_id)
        (api_error (validation_error "Cannot share a note with yourself."))
    wrapped_fek ← lift (or_api_error (decode_wrapped_fek b64decode wrapped_fek))
    existing ← query λ db. find (is_shared recipient.id note_id) db.note_shares
    raise_if (not (is_none existing))
        (api_error (error_of 409 "already_shared" "Note is already shared with this user."))
    add_share (record {
      id = new_id;
      note_id = note_id;
      owner_id = user_id;
      recipient_id = recipient.id;
      wrapped_fek = wrapped_fek;
      shared_at = shared_at;
    })
    commit
    pure (record { share_id = new_id; recipient_email = recipient.email; shared_at = shared_at })

  unfoldable pub revoke_share : ℕ → ℕ → Text → Action (Unit {0})
  unfolding delete_share
  revoke_share user_id note_id recipient_email = do
    recipient ← find_user_by_email sql_lower lower recipient_email
    recipient ← or_raise recipient share_not_found
    share ← query λ db. find (is_share_of note_id user_id recipient.id) db.note_shares
    share ← or_raise share share_not_found
    delete_share share
    commit
