-- ===== src/Uploads.antt =====
-- app/notes/uploads.py: chunked uploads. Each reading of the clock is an argument of the operation
-- that makes it, in the order of the readings; the id that a new session gets is an argument too.
-- `timedelta(hours=24)` is in seconds, as all times are.
pub mod Invariant
pub mod Lookup
pub mod Requests
pub mod Complete
pub mod Delivered
pub mod Steps
pub mod Blind
pub mod Isolation
pub mod Accepted
pub mod Succeeds
use super_secure_notes_api.Prelude.{
  ℕ, ◌+◌, ◌*◌, Bool, true, false, not, ◌&&◌, Option, none, some, List, [], ◌∷◌, ltb, ◌==◌, length,
  if◌then◌else◌,
}
use super_secure_notes_api.Prelude.Int.{ℤ, pos, negsuc}
use super_secure_notes_api.Prelude.Text.{Text}
use super_secure_notes_api.Errors.{
  error_of, validation_error, conflict, note_not_found, chunk_must_be,
}
use super_secure_notes_api.Db.Models.{UploadSession, UploadChunk, Status, in_progress, aborted, Db}
use super_secure_notes_api.Db.Table.{select, find, exists, remove, update}
use super_secure_notes_api.Db.Session.{
  Action, api_error, integrity_error, ◌>>=◌, ◌>>◌, pure, raise, raise_if, lift, query, modify,
  commit,
}
use super_secure_notes_api.Notes.ChunkSize.{
  chunk_size_bytes, upload_session_ttl_hours, total_chunks_for_size, expected_chunk_size,
}
use super_secure_notes_api.Notes.Schemas.{AttachmentUploadResponse, InitUploadResponse}
use super_secure_notes_api.Notes.Queries.{has_index, in_upload, get_active_note, upload_chunks_of}
use super_secure_notes_api.Notes.Service.{or_raise}
use super_secure_notes_api.Notes.Attachments.{or_api_error, finalize_chunked_upload}

abbrev pub is_in_progress : Status → Bool
is_in_progress in_progress = true
is_in_progress aborted = false

abbrev pub has_id : ℕ → UploadSession → Bool
has_id upload_id x = x.id == upload_id

-- `UploadSession.attachment_id == attachment_id`; a NULL is equal to nothing.
abbrev pub is_some_id : ℕ → Option ℕ → Bool
is_some_id attachment_id none = false
is_some_id attachment_id (some x) = x == attachment_id

abbrev pub is_expired : ℕ → ℕ → UploadSession → Bool
is_expired now user_id x = x.user_id == user_id && (is_in_progress x.status && ltb x.expires_at now)

abbrev pub is_live : ℕ → ℕ → ℕ → UploadSession → Bool
is_live user_id note_id attachment_id x =
    x.user_id == user_id
    && (x.note_id == note_id
        && (is_some_id attachment_id x.attachment_id && is_in_progress x.status))

abbrev pub is_session : ℕ → ℕ → ℕ → ℕ → UploadSession → Bool
is_session user_id note_id attachment_id upload_id x =
    x.id == upload_id
    && (x.user_id == user_id && (x.note_id == note_id && is_some_id attachment_id x.attachment_id))

-- `session.status = "aborted"`, and the DELETE of its chunks.
unfoldable pub abort_session : UploadSession → Db → Db
abort_session session db = record db {
  upload_sessions =
      update (has_id session.id) (λ x. record x { status = aborted }) db.upload_sessions;
  upload_chunks = remove (in_upload session.id) db.upload_chunks;
}

-- `for session in result.scalars():`
unfoldable pub abort_sessions : List UploadSession → Db → Db
abort_sessions [] db = db
abort_sessions (session ∷ rest) db = abort_sessions rest (abort_session session db)

unfoldable pub cleanup_expired_sessions : ℕ → ℕ → Action (Unit {0})
cleanup_expired_sessions now user_id = do
  sessions ← query λ db. select (is_expired now user_id) db.upload_sessions
  modify (abort_sessions sessions)
  commit

unfoldable pub abort_in_progress_sessions : ℕ → ℕ → ℕ → Action (Unit {0})
abort_in_progress_sessions user_id note_id attachment_id = do
  sessions ← query λ db. select (is_live user_id note_id attachment_id) db.upload_sessions
  modify (abort_sessions sessions)

-- The tests on the session that was found.
unfoldable pub check_upload_session : ℕ → UploadSession → Action UploadSession
unfolding abort_session
check_upload_session now session =
    if ltb session.expires_at now
    then (do
      modify (abort_session session)
      commit
      raise (api_error (conflict "Upload session has expired.")))
    else (do
      raise_if (not (is_in_progress session.status))
          (api_error (conflict "Upload is not in progress."))
      pure session)

unfoldable pub get_upload_session : ℕ → ℕ → ℕ → ℕ → ℕ → ℕ → Action UploadSession
unfolding cleanup_expired_sessions
get_upload_session now now' user_id note_id attachment_id upload_id = do
  cleanup_expired_sessions now user_id
  found ← query λ db. find (is_session user_id note_id attachment_id upload_id) db.upload_sessions
  session ← or_raise found (error_of 404 "note_not_found" "Upload session not found.")
  check_upload_session now' session

unfoldable pub add_session : UploadSession → Action (Unit {0})
add_session x = do
  taken ← query λ db. exists (has_id x.id) db.upload_sessions
  raise_if taken integrity_error
  modify λ db. record db { upload_sessions = x ∷ db.upload_sessions }

unfoldable pub init_upload : ℕ → ℕ → ℕ → ℕ → ℕ → ℕ → ℕ → Action InitUploadResponse
unfolding get_active_note cleanup_expired_sessions abort_in_progress_sessions add_session
init_upload now now' new_id user_id note_id attachment_id total_size = do
  note ← get_active_note user_id note_id
  _ ← or_raise note note_not_found
  cleanup_expired_sessions now user_id
  abort_in_progress_sessions user_id note_id attachment_id
  let total_chunks = total_chunks_for_size total_size
  add_session (record {
    id = new_id;
    user_id = user_id;
    note_id = note_id;
    attachment_id = some attachment_id;
    total_size = total_size;
    chunk_size = chunk_size_bytes;
    received_chunks = 0;
    expected_chunks = total_chunks;
    status = in_progress;
    expires_at = now' + upload_session_ttl_hours * 3600;
  })
  commit
  pure (record { upload_id = new_id; chunk_size = chunk_size_bytes; total_chunks = total_chunks })

-- An index that passed the range test is not negative.
abbrev pub index_of : ℤ → ℕ
index_of (pos i) = i
index_of (negsuc i) = 0

-- The branches on the chunk that may be there already.
unfoldable pub store_chunk : ℕ → ℤ → List ℕ → Option UploadChunk → Action (Unit {0})
store_chunk upload_id chunk_index content none = do
  modify λ db. record db {
    upload_chunks =
        record { upload_id = upload_id; chunk_index = index_of chunk_index; content = content }
        ∷ db.upload_chunks;
  }
  modify λ db. record db {
    upload_sessions =
        update (has_id upload_id) (λ x. record x { received_chunks = x.received_chunks + 1 })
          db.upload_sessions;
  }
store_chunk upload_id chunk_index content (some chunk) = modify λ db. record db {
  upload_chunks =
      update (λ x. in_upload upload_id x && has_index chunk_index x.chunk_index)
        (λ x. record x { content = content }) db.upload_chunks;
}

unfoldable pub upload_chunk : ℕ → ℕ → ℕ → ℕ → ℕ → ℕ → ℤ → List ℕ → Action (Unit {0})
upload_chunk now now' user_id note_id attachment_id upload_id chunk_index content = do
  session ← get_upload_session now now' user_id note_id attachment_id upload_id
  expected_size ← lift (or_api_error (expected_chunk_size session chunk_index))
  raise_if (not (length content == expected_size)) (
      api_error (record {
        status_code = 400;
        error = "validation_error";
        message = chunk_must_be chunk_index expected_size;
      }))
  chunk ← query λ db.
      find (λ x. in_upload upload_id x && has_index chunk_index x.chunk_index) db.upload_chunks
  store_chunk upload_id chunk_index content chunk
  commit

-- `sum(len(chunk.data) for chunk in chunks)`
abbrev pub total_bytes : List UploadChunk → ℕ
total_bytes [] = 0
total_bytes (x ∷ xs) = length x.content + total_bytes xs

-- The three tests of `complete_upload`, on the session and the chunks.
unfoldable pub check_complete : UploadSession → List UploadChunk → Action (Unit {0})
check_complete session chunks = do
  raise_if (not (session.received_chunks == session.expected_chunks))
      (api_error (validation_error "Upload is missing chunks."))
  raise_if (not (length chunks == session.expected_chunks))
      (api_error (validation_error "Upload is missing chunks."))
  raise_if (not (total_bytes chunks == session.total_size))
      (api_error (validation_error "Assembled blob size mismatch."))

-- `epoch` is the `int(time.time())` of `finalize_chunked_upload`.
unfoldable pub complete_upload :
    (List ℕ → Text)
    → ℕ
    → ℕ
    → ℕ
    → ℕ
    → ℕ
    → ℕ
    → ℕ
    → Option Text
    → Option Text
    → Action AttachmentUploadResponse
complete_upload sha256 now now' epoch user_id note_id attachment_id upload_id content_type
      if_match =
    do
      session ← get_upload_session now now' user_id note_id attachment_id upload_id
      chunks ← query (upload_chunks_of upload_id)
      check_complete session chunks
      response ←
          finalize_chunked_upload sha256 epoch user_id note_id attachment_id upload_id
            session.total_size content_type if_match
      modify λ db. record db { upload_chunks = remove (in_upload upload_id) db.upload_chunks }
      modify λ db. record db { upload_sessions = remove (has_id upload_id) db.upload_sessions }
      commit
      pure response
