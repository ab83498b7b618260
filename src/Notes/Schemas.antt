-- ===== src/Notes/Schemas.antt =====
-- app/notes/schemas.py: the replies.
use super_secure_notes_api.Prelude.{ℕ, Option, List}
use super_secure_notes_api.Prelude.Text.{Text}
use super_secure_notes_api.Db.Models.{SyncState}

pub record NoteUploadResponse : Type 0 where
  pub sync_state : SyncState
  pub updated_at : ℕ
  pub etag : Text

pub record AttachmentSummaryResponse : Type 0 where
  pub attachment_id : ℕ
  pub size_bytes : ℕ
  pub etag : Text
  pub updated_at : ℕ
  pub content_type : Option Text
  pub total_chunks : ℕ
  pub chunk_size : ℕ

pub record AttachmentUploadResponse : Type 0 where
  pub attachment_id : ℕ
  pub size_bytes : ℕ
  pub etag : Text
  pub updated_at : ℕ
  pub note_etag : Text
  pub content_type : Option Text

pub record InitUploadResponse : Type 0 where
  pub upload_id : ℕ
  pub chunk_size : ℕ
  pub total_chunks : ℕ

-- `Response` with a body and an `ETag` header, whose quotes are left out.
pub record ContentResponse : Type 0 where
  pub content : List ℕ
  pub etag : Text
