-- ===== src/Notes/Attachments.antt =====
-- app/notes/service.py: `promote_upload_chunks`, `finalize_chunked_upload`, `delete_attachment` and
-- `attachment_to_summary`; app/notes/router.py: the routes of attachments.
pub mod Rollback
pub mod Finalized
use super_secure_notes_api.Prelude.{
  ℕ, Bool, true, false, not, Option, none, some, List, [], ◌∷◌, ◌++◌, map, length, ◌==◌,
  if◌then◌else◌,
}
use super_secure_notes_api.Prelude.Int.{ℤ}
use super_secure_notes_api.Prelude.Result.{Result, ok, err}
use super_secure_notes_api.Prelude.Text.{Text}
use super_secure_notes_api.Errors.{ApiError, error_of, note_not_found, attachment_not_found}
use super_secure_notes_api.Db.Models.{NoteAttachment, AttachmentChunk, UploadChunk, Db}
use super_secure_notes_api.Db.Table.{remove, update}
use super_secure_notes_api.Db.Session.{
  Action, Failure, api_error, ◌>>=◌, ◌>>◌, pure, raise, raise_if, lift, query, modify, commit,
}
use super_secure_notes_api.Notes.ChunkSize.{
  chunk_size_bytes, total_chunks_for_size, expected_attachment_chunk_size,
}
use super_secure_notes_api.Notes.Schemas.{
  AttachmentSummaryResponse, AttachmentUploadResponse, ContentResponse,
}
use super_secure_notes_api.Notes.Queries.{
  is_attachment, chunk_of, get_active_note, list_note_attachments, get_note_attachment,
  get_note_attachment_chunk, upload_chunks_of,
}
use super_secure_notes_api.Notes.Service.{
  or_raise, check_if_match, attachment_etag_of, compute_upload_etag, recompute_note_sync_metadata,
}

abbrev pub promoted : ℕ → ℕ → ℕ → UploadChunk → AttachmentChunk
promoted user_id note_id attachment_id x = record {
  user_id = user_id;
  note_id = note_id;
  attachment_id = attachment_id;
  chunk_index = x.chunk_index;
  content = x.content;
}

-- The old chunks of the attachment go, so that no primary key is taken when the new ones are added.
unfoldable pub promote_upload_chunks : ℕ → ℕ → ℕ → ℕ → Action (Unit {0})
promote_upload_chunks user_id note_id attachment_id upload_id = do
  modify λ db. record db {
    attachment_chunks = remove (chunk_of user_id note_id attachment_id) db.attachment_chunks;
  }
  chunks ← query (upload_chunks_of upload_id)
  modify λ db. record db {
    attachment_chunks = map (promoted user_id note_id attachment_id) chunks ++ db.attachment_chunks;
  }

-- A content type that is given replaces the stored one.
abbrev pub or_stored : Option Text → Option Text → Option Text
or_stored (some given) stored = some given
or_stored none stored = stored

-- The branches on `existing`; the result is `stored_content_type`.
unfoldable pub store_attachment :
    ℕ → ℕ → ℕ → ℕ → Text → Option Text → ℕ → Option NoteAttachment → Action (Option Text)
store_attachment user_id note_id attachment_id total_size etag content_type updated_at none = do
  modify λ db. record db {
    note_attachments =
        record {
          user_id = user_id;
          note_id = note_id;
          attachment_id = attachment_id;
          size_bytes = total_size;
          etag = etag;
          content_type = content_type;
          updated_at = updated_at;
        }
        ∷ db.note_attachments;
  }
  pure content_type
store_attachment user_id note_id attachment_id total_size etag content_type updated_at
      (some existing) =
    do
      modify λ db. record db {
        note_attachments =
            update (is_attachment user_id note_id attachment_id)
              (λ x. record x {
                size_bytes = total_size;
                etag = etag;
                updated_at = updated_at;
                content_type = or_stored content_type x.content_type;
              })
              db.note_attachments;
      }
      pure (or_stored content_type existing.content_type)

module _ (sha256 : List ℕ → Text) where
  -- `now` is `int(time.time())`.
  unfoldable pub finalize_chunked_upload :
      ℕ → ℕ → ℕ → ℕ → ℕ → ℕ → Option Text → Option Text → Action AttachmentUploadResponse
  unfolding get_active_note get_note_attachment
  finalize_chunked_upload now user_id note_id attachment_id upload_id total_size content_type
        if_match =
      do
        note ← get_active_note user_id note_id
        _ ← or_raise note note_not_found
        existing ← get_note_attachment user_id note_id attachment_id
        check_if_match (attachment_etag_of existing) if_match "Attachment etag does not match."
        etag ← compute_upload_etag sha256 upload_id
        stored_content_type ←
            store_attachment user_id note_id attachment_id total_size etag content_type now existing
        promote_upload_chunks user_id note_id attachment_id upload_id
        result ← recompute_note_sync_metadata sha256 user_id note_id none none
        pure (record {
          attachment_id = attachment_id;
          size_bytes = total_size;
          etag = etag;
          updated_at = now;
          note_etag = result.0;
          content_type = stored_content_type;
        })

  -- `db.delete(attachment)` takes the chunks with it (`cascade="all, delete-orphan"`).
  unfoldable pub delete_attachment : ℕ → ℕ → ℕ → Action (Unit {0})
  unfolding get_active_note get_note_attachment
  delete_attachment user_id note_id attachment_id = do
    note ← get_active_note user_id note_id
    _ ← or_raise note note_not_found
    attachment ← get_note_attachment user_id note_id attachment_id
    _ ← or_raise attachment attachment_not_found
    modify λ db. record db {
      note_attachments = remove (is_attachment user_id note_id attachment_id) db.note_attachments;
      attachment_chunks = remove (chunk_of user_id note_id attachment_id) db.attachment_chunks;
    }
    _ ← recompute_note_sync_metadata sha256 user_id note_id none none
    commit

unfoldable pub attachment_to_summary : NoteAttachment → AttachmentSummaryResponse
attachment_to_summary x = record {
  attachment_id = x.attachment_id;
  size_bytes = x.size_bytes;
  etag = x.etag;
  updated_at = x.updated_at;
  content_type = x.content_type;
  total_chunks = total_chunks_for_size x.size_bytes;
  chunk_size = chunk_size_bytes;
}

unfoldable pub list_attachments : ℕ → ℕ → Action (List AttachmentSummaryResponse)
unfolding get_active_note list_note_attachments
list_attachments user_id note_id = do
  note ← get_active_note user_id note_id
  _ ← or_raise note note_not_found
  attachments ← list_note_attachments user_id note_id
  pure (map attachment_to_summary attachments)

abbrev pub or_api_error : {A : Type 0} → Result ApiError A → Result Failure A
or_api_error (ok a) = ok a
or_api_error (err e) = err (api_error e)

-- What both routes for a chunk, the owner's and the recipient's, do once they have the owner.
unfoldable pub read_chunk : ℕ → ℕ → ℕ → ℤ → Action ContentResponse
unfolding get_note_attachment get_note_attachment_chunk
read_chunk owner_id note_id attachment_id chunk_index = do
  attachment ← get_note_attachment owner_id note_id attachment_id
  attachment ← or_raise attachment attachment_not_found
  expected_size ←
      lift (or_api_error (expected_attachment_chunk_size attachment.size_bytes chunk_index))
  chunk ← get_note_attachment_chunk owner_id note_id attachment_id chunk_index
  chunk ← or_raise chunk (error_of 404 "attachment_not_found" "Attachment chunk not found.")
  raise_if (not (length chunk.content == expected_size))
      (api_error (error_of 500 "internal_error" "Stored chunk size mismatch."))
  pure (record { content = chunk.content; etag = attachment.etag })

unfoldable pub get_attachment_chunk : ℕ → ℕ → ℕ → ℤ → Action ContentResponse
unfolding get_active_note read_chunk
get_attachment_chunk user_id note_id attachment_id chunk_index = do
  note ← get_active_note user_id note_id
  _ ← or_raise note note_not_found
  read_chunk user_id note_id attachment_id chunk_index
