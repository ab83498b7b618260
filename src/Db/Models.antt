-- ===== src/Db/Models.antt =====
-- app/models.py: the rows of the tables. A UUID is its integer, a timestamp a number of seconds, and
-- `bytes` the list of the bytes. The `created_at` columns that no code reads are left out, as is
-- `VaultHeader.updated_at`.
use super_secure_notes_api.Prelude.{ℕ, Option, List, []}
use super_secure_notes_api.Prelude.Text.{Text}

pub record User : Type 0 where
  pub id : ℕ
  pub email : Text
  pub password_hash : Text
  pub created_at : ℕ

pub record RefreshToken : Type 0 where
  pub id : ℕ
  pub user_id : ℕ
  pub token_hash : Text
  pub expires_at : ℕ
  pub revoked_at : Option ℕ

pub record VaultHeader : Type 0 where
  pub user_id : ℕ
  pub header_data : List ℕ
  pub public_key : List ℕ
  pub algorithm_id : ℕ

-- The values that `Note.sync_state` is given.
pub data SyncState : Type 0 where
  synced : SyncState

pub record Note : Type 0 where
  pub user_id : ℕ
  pub note_id : ℕ
  pub title : Text
  pub updated_at : ℕ
  pub etag : Text
  pub sync_state : SyncState
  pub deleted_at : Option ℕ

pub record NoteBlob : Type 0 where
  pub user_id : ℕ
  pub note_id : ℕ
  pub content : List ℕ
  pub size_bytes : ℕ

pub record NoteAttachment : Type 0 where
  pub user_id : ℕ
  pub note_id : ℕ
  pub attachment_id : ℕ
  pub size_bytes : ℕ
  pub etag : Text
  pub content_type : Option Text
  pub updated_at : ℕ

pub record AttachmentChunk : Type 0 where
  pub user_id : ℕ
  pub note_id : ℕ
  pub attachment_id : ℕ
  pub chunk_index : ℕ
  pub content : List ℕ

-- The values that `UploadSession.status` is given.
pub data Status : Type 0 where
  in_progress aborted : Status

pub record UploadSession : Type 0 where
  pub id : ℕ
  pub user_id : ℕ
  pub note_id : ℕ
  pub attachment_id : Option ℕ
  pub total_size : ℕ
  pub chunk_size : ℕ
  pub received_chunks : ℕ
  pub expected_chunks : ℕ
  pub status : Status
  pub expires_at : ℕ

pub record UploadChunk : Type 0 where
  pub upload_id : ℕ
  pub chunk_index : ℕ
  pub content : List ℕ

pub record NoteShare : Type 0 where
  pub id : ℕ
  pub note_id : ℕ
  pub owner_id : ℕ
  pub recipient_id : ℕ
  pub wrapped_fek : List ℕ
  pub shared_at : ℕ

pub record Db : Type 0 where
  pub users : List User
  pub refresh_tokens : List RefreshToken
  pub vault_headers : List VaultHeader
  pub notes : List Note
  pub note_blobs : List NoteBlob
  pub note_attachments : List NoteAttachment
  pub attachment_chunks : List AttachmentChunk
  pub upload_sessions : List UploadSession
  pub upload_chunks : List UploadChunk
  pub note_shares : List NoteShare

abbrev pub empty_db : Db
empty_db = record {
  users = [];
  refresh_tokens = [];
  vault_headers = [];
  notes = [];
  note_blobs = [];
  note_attachments = [];
  attachment_chunks = [];
  upload_sessions = [];
  upload_chunks = [];
  note_shares = [];
}
