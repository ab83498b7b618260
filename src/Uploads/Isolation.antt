-- ===== src/Uploads/Isolation.antt =====
-- app/notes/uploads.py: the requests of uploads leave the notes alone, but the note that
-- `complete_upload` adds an attachment to.
use super_secure_notes_api.Prelude.{ℕ, ◌≡◌, false, ◌&&◌, Option, List, ◌==◌}
use super_secure_notes_api.Prelude.Int.{ℤ}
use super_secure_notes_api.Prelude.Text.{Text}
use super_secure_notes_api.Db.Models.{UploadSession, UploadChunk, Db}
use super_secure_notes_api.Db.Session.Within.{Within}
use super_secure_notes_api.Notes.Isolation.{SameNote}
use super_secure_notes_api.Notes.Isolation.Actions.{finalize-Keeps}
use super_secure_notes_api.Uploads.{init_upload, upload_chunk, complete_upload}
use super_secure_notes_api.Uploads.Blind.{
  init_upload-Within, upload_chunk-Within, complete_upload-Within,
}

module _ (user' note' : ℕ) (old : Db) where
  abbrev P : Db → Type 0
  P = SameNote user' note' old

  blind :
      (db : Db) (sessions : List UploadSession) (chunks : List UploadChunk)
      → P db
      → P (record db { upload_sessions = sessions; upload_chunks = chunks })
  blind db sessions chunks p = record {
    note = p.note;
    blob = p.blob;
    attachments = p.attachments;
    chunks = p.chunks;
  }

  -- Whatever `init_upload` replies, every note is as it was.
  pub init_upload-Keeps :
      (now now' new_id user note att total : ℕ)
      → Within P (init_upload now now' new_id user note att total)
  init_upload-Keeps = init_upload-Within P blind

  pub upload_chunk-Keeps :
      (now now' user note att k : ℕ) (i : ℤ) (bytes : List ℕ)
      → Within P (upload_chunk now now' user note att k i bytes)
  upload_chunk-Keeps = upload_chunk-Within P blind

  -- Whatever `complete_upload` replies, every note but its own is as it was.
  pub complete_upload-Keeps :
      (sha256 : List ℕ → Text) (now now' epoch user note att k : ℕ)
      (content_type if_match : Option Text)
      → (user' == user && note' == note) ≡ false
      → Within P (complete_upload sha256 now now' epoch user note att k content_type if_match)
  complete_upload-Keeps sha256 now now' epoch user note att k content_type if_match other =
      complete_upload-Within P blind sha256 now now' epoch user note att k content_type if_match
        (λ total.
          finalize-Keeps user note user' note' other old sha256 epoch att k total content_type
            if_match)
