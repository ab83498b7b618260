-- ===== src/History.antt =====
-- app/notes/router.py and app/notes/uploads.py: the requests of owners that read and write bodies,
-- attachments and uploads, one after another on one database.
pub mod Consistent
pub mod Isolated
pub mod Bodies
pub mod Kept
pub mod Refined
pub mod Sharing
use super_secure_notes_api.Prelude.{ℕ, Bool, false, ◌&&◌, Option, List, [], ◌∷◌, ◌==◌}
use super_secure_notes_api.Prelude.Int.{ℤ}
use super_secure_notes_api.Prelude.Result.{Result}
use super_secure_notes_api.Prelude.Text.{Text}
use super_secure_notes_api.Db.Models.{Db}
use super_secure_notes_api.Db.Session.{Action, Failure, ◌>>=◌, pure, run}
use super_secure_notes_api.Notes.Schemas.{
  NoteUploadResponse, AttachmentUploadResponse, InitUploadResponse, ContentResponse,
}
use super_secure_notes_api.Notes.Bodies.{put_note_body, get_note_body, soft_delete_note}
use super_secure_notes_api.Notes.Attachments.{get_attachment_chunk, delete_attachment}
use super_secure_notes_api.Uploads.{init_upload, upload_chunk, complete_upload}

-- A request of a user, with the readings of the clock and the new id that its handler takes.
pub data Request : Type 0 where
  put_body : (user_id note_id : ℕ) (body : List ℕ) (if_match : Option Text) → Request
  get_body : (user_id note_id : ℕ) → Request
  delete_note : (now user_id note_id : ℕ) → Request
  get_chunk : (user_id note_id attachment_id : ℕ) (chunk_index : ℤ) → Request
  remove_attachment : (user_id note_id attachment_id : ℕ) → Request
  start_upload : (now now' new_id user_id note_id attachment_id total_size : ℕ) → Request
  send_chunk :
      (now now' user_id note_id attachment_id upload_id : ℕ) (chunk_index : ℤ) (content : List ℕ)
      → Request
  finish_upload :
      (now now' epoch user_id note_id attachment_id upload_id : ℕ)
      (content_type if_match : Option Text)
      → Request

pub data Reply : Type 0 where
  empty_reply : Reply
  note_reply : NoteUploadResponse → Reply
  content_reply : ContentResponse → Reply
  upload_reply : InitUploadResponse → Reply
  attachment_reply : AttachmentUploadResponse → Reply

module _ (sha256 : List ℕ → Text) where
  abbrev pub handle : Request → Action Reply
  handle (put_body user_id note_id body if_match) = do
    r ← put_note_body sha256 user_id note_id body if_match
    pure (note_reply r)
  handle (get_body user_id note_id) = do
    r ← get_note_body sha256 user_id note_id
    pure (content_reply r)
  handle (delete_note now user_id note_id) = do
    _ ← soft_delete_note now user_id note_id
    pure empty_reply
  handle (get_chunk user_id note_id attachment_id chunk_index) = do
    r ← get_attachment_chunk user_id note_id attachment_id chunk_index
    pure (content_reply r)
  handle (remove_attachment user_id note_id attachment_id) = do
    _ ← delete_attachment sha256 user_id note_id attachment_id
    pure empty_reply
  handle (start_upload now now' new_id user_id note_id attachment_id total_size) = do
    r ← init_upload now now' new_id user_id note_id attachment_id total_size
    pure (upload_reply r)
  handle (send_chunk now now' user_id note_id attachment_id upload_id chunk_index content) = do
    _ ← upload_chunk now now' user_id note_id attachment_id upload_id chunk_index content
    pure empty_reply
  handle
        (finish_upload now now' epoch user_id note_id attachment_id upload_id content_type
          if_match) =
      do
        r ←
            complete_upload sha256 now now' epoch user_id note_id attachment_id upload_id
              content_type if_match
        pure (attachment_reply r)

  -- The replies to some requests, and the database after them.
  abbrev pub serve : List Request → Db → List (Result Failure Reply) × Db
  serve [] db = ([], db)
  serve (r ∷ requests) db =
      let rest = serve requests (run (handle r) db).1 in ((run (handle r) db).0 ∷ rest.0, rest.1)

-- The request may write that note.
abbrev pub writes : Request → ℕ → ℕ → Bool
writes (put_body user_id note_id _ _) u n = u == user_id && n == note_id
writes (get_body user_id note_id) u n = false
writes (delete_note _ user_id note_id) u n = u == user_id && n == note_id
writes (get_chunk _ _ _ _) u n = false
writes (remove_attachment user_id note_id _) u n = u == user_id && n == note_id
writes (start_upload _ _ _ _ _ _ _) u n = false
writes (send_chunk _ _ _ _ _ _ _ _) u n = false
writes (finish_upload _ _ _ user_id note_id _ _ _ _) u n = u == user_id && n == note_id
