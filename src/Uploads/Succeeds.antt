-- ===== src/Uploads/Succeeds.antt =====
-- app/notes/uploads.py: `complete_upload` succeeds once all chunks are there.
use super_secure_notes_api.Prelude.{
  ℕ, ◌≤◌, ◌≡◌, refl, ◌∙◌, true, false, Option, none, some, List, arith, ltb, ◌==◌, Option-cases,
  inl, inr,
}
use super_secure_notes_api.Prelude.Result.{ok}
use super_secure_notes_api.Prelude.Text.{Text}
use super_secure_notes_api.Parsers.Ssnt.{NoteMetadata, parse_note_blob}
use super_secure_notes_api.Db.Models.{Note, NoteBlob, UploadSession, Db}
use super_secure_notes_api.Db.Table.{find}
use super_secure_notes_api.Db.Session.{Session, open_session, run}
use super_secure_notes_api.Notes.Schemas.{AttachmentUploadResponse}
use super_secure_notes_api.Notes.Queries.{
  is_active, is_blob, is_attachment, upload_chunks_of, concat,
}
use super_secure_notes_api.Notes.Service.{
  check_if_match, attachment_etag_of, compute_upload_etag, recompute_note_sync_metadata,
  body_or_stored, time_or_parsed, or_validation_error,
}
use super_secure_notes_api.Notes.Attachments.{
  store_attachment, promote_upload_chunks, finalize_chunked_upload,
}
use super_secure_notes_api.Uploads.{
  is_in_progress, is_session, get_upload_session, check_upload_session, check_complete,
  complete_upload,
}
use super_secure_notes_api.Uploads.Invariant.{IsConsistent}
use super_secure_notes_api.Uploads.Lookup.{cleaned, cleaned-IsConsistent}
use super_secure_notes_api.Uploads.Complete.{check_complete_iff}

recompute_succeeds :
    (sha256 : List ℕ → Text) (user note : ℕ) (s : Session) (y : Note) (blob : NoteBlob)
    (m : NoteMetadata)
    → find (is_active user note) s.pending.notes ≡ some y
    → find (is_blob user note) s.pending.note_blobs ≡ some blob
    → parse_note_blob blob.content ≡ ok m
    → (r : Text × ℕ) × (s' : Session) × (recompute_note_sync_metadata sha256 user note none none s
        ≡ (ok r, s'))
unfolding recompute_note_sync_metadata body_or_stored time_or_parsed or_validation_error
recompute_succeeds sha256 user note s y blob m active there parsed =
    rw (active, there, parsed) (_, _, refl)

finalize_succeeds :
    (sha256 : List ℕ → Text) (now user note att k total : ℕ) (content_type : Option Text)
    (s : Session) (y : Note) (blob : NoteBlob) (m : NoteMetadata)
    → find (is_active user note) s.pending.notes ≡ some y
    → find (is_blob user note) s.pending.note_blobs ≡ some blob
    → parse_note_blob blob.content ≡ ok m
    → (r : AttachmentUploadResponse) × (s' : Session) × (finalize_chunked_upload sha256 now user
          note att k total content_type none s
        ≡ (ok r, s'))
unfolding finalize_chunked_upload check_if_match attachment_etag_of compute_upload_etag
    store_attachment promote_upload_chunks
finalize_succeeds sha256 now user note att k total content_type s y blob m active there parsed =
    let etag = sha256 (concat (upload_chunks_of k s.pending)) in
    elim (Option-cases (find (is_attachment user note att) s.pending.note_attachments)) [
      | inl fresh ↦
          let stored : Session =
            (promote_upload_chunks user note att k
              (store_attachment user note att total etag content_type now none s).1).1 in
          let (r, s', done) =
            recompute_succeeds sha256 user note stored y blob m active there parsed in
          rw (active, fresh) (rw done (_, _, refl))
      | inr (x, old) ↦
          let stored : Session =
            (promote_upload_chunks user note att k
              (store_attachment user note att total etag content_type now (some x) s).1).1 in
          let (r, s', done) =
            recompute_succeeds sha256 user note stored y blob m active there parsed in
          rw (active, old) (rw done (_, _, refl))
    ]

-- On a consistent database, for a session that is found once the expired sessions of the user are
-- aborted, that is in progress, has not expired and has received all its chunks, when the note is
-- active and its stored body parses, `complete_upload` without `If-Match` returns a reply.
pub complete_upload_succeeds :
    (sha256 : List ℕ → Text) (now now' epoch user_id note_id attachment_id upload_id : ℕ)
    (content_type : Option Text) (db : Db) (session : UploadSession) (y : Note) (blob : NoteBlob)
    (m : NoteMetadata)
    → IsConsistent db
    → find
        (is_session user_id note_id attachment_id upload_id)
        (cleaned now user_id db).upload_sessions
      ≡ some session
    → is_in_progress session.status ≡ true
    → now' ≤ session.expires_at
    → (session.received_chunks == session.expected_chunks) ≡ true
    → find (is_active user_id note_id) (cleaned now user_id db).notes ≡ some y
    → find (is_blob user_id note_id) (cleaned now user_id db).note_blobs ≡ some blob
    → parse_note_blob blob.content ≡ ok m
    → (r : AttachmentUploadResponse) × (db' : Db) × (run
          (complete_upload sha256 now now' epoch user_id note_id attachment_id upload_id
            content_type none)
          db
        ≡ (ok r, db'))
unfolding run complete_upload get_upload_session check_upload_session
complete_upload_succeeds sha256 now now' epoch user note att k content_type db session y blob m v
      found live time all active there parsed =
    let db₁ = cleaned now user db in
    let on_time : ltb session.expires_at now' ≡ false = ground (arith, time) in
    let tests : check_complete session (upload_chunks_of k db₁) (open_session db₁)
        ≡ (ok tt, open_session db₁) =
      check_complete_iff db₁ user note att k session (open_session db₁)
        (cleaned-IsConsistent now user db v) found live
      ∙ rw all refl in
    let (r, s', final) =
      finalize_succeeds sha256 epoch user note att k session.total_size content_type
        (open_session db₁) y blob m active there parsed in
    rw (found, on_time, live, tests, final) (r, _, refl)
