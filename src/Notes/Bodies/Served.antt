-- ===== src/Notes/Bodies/Served.antt =====
-- app/notes/router.py: what `get_note_body` serves once `put_note_body` has succeeded.
use super_secure_notes_api.Prelude.{
  ℕ, ◌≡◌, refl, ap, ◌∙◌, not, Option, some, List, arith, map, ◌==◌, length, ltb,
}
use super_secure_notes_api.Prelude.Result.{ok}
use super_secure_notes_api.Prelude.Text.{Text}
use super_secure_notes_api.Parsers.Ssnt.{NoteMetadata, parse_note_blob}
use super_secure_notes_api.Db.Models.{Note, NoteBlob, Db}
use super_secure_notes_api.Db.Table.{select, find, order_by}
use super_secure_notes_api.Db.Session.{Session, open_session, run}
use super_secure_notes_api.Db.Session.Holds.{
  Holds, Holds-run, Holds-continue, Holds-raise_if, Holds-lift,
}
use super_secure_notes_api.Notes.ChunkSize.{max_body_bytes}
use super_secure_notes_api.Notes.Etag.{compute_etag, compute_composite_etag}
use super_secure_notes_api.Notes.Schemas.{NoteUploadResponse}
use super_secure_notes_api.Notes.Queries.{is_active, is_blob, in_note, total_size_of}
use super_secure_notes_api.Notes.Service.{
  or_validation_error, etag_of, store_note, recompute_note_sync_metadata,
}
use super_secure_notes_api.Notes.Checks.{Holds-validate, Holds-check_if_match}
use super_secure_notes_api.Notes.Bodies.{is_empty, persist_note_body, put_note_body, get_note_body}
use super_secure_notes_api.Notes.Bodies.Stored.{
  or_validation_error-ok, Stored, store_note-Stored, After, recompute-Composite,
}

-- What a reader finds once the body is stored, for the reply of the upload.
pub record Served (sha256 : List ℕ → Text) (user note : ℕ) (body : List ℕ) (r : NoteUploadResponse)
    (db : Db) : Type 0 where
  pub metadata : NoteMetadata
  pub parsed : parse_note_blob body ≡ ok metadata
  pub same_note : metadata.note_id ≡ note
  pub count : metadata.attachment_count ≡ length (select (in_note user note) db.note_attachments)
  pub total :
      metadata.attachments_total_size
      ≡ total_size_of (select (in_note user note) db.note_attachments)
  pub read_back :
      run (get_note_body sha256 user note) db
      ≡ (ok (record { content = body; etag = compute_etag sha256 body }), db)
  pub row : Note
  pub found : find (is_active user note) db.notes ≡ some row
  pub title : row.title ≡ metadata.title
  pub etag : row.etag ≡ r.etag
  pub updated_at : row.updated_at ≡ r.updated_at
  pub composite :
      r.etag
      ≡ compute_composite_etag sha256 (compute_etag sha256 body) (
          map
            (λ a. (a.attachment_id, a.etag))
            (order_by (λ a. a.attachment_id) (select (in_note user note) db.note_attachments)))

read_stored :
    (sha256 : List ℕ → Text) (user note : ℕ) (body : List ℕ) (x : Note) (blob : NoteBlob) (db : Db)
    → find (is_active user note) db.notes ≡ some x
    → find (is_blob user note) db.note_blobs ≡ some blob
    → blob.content ≡ body
    → run (get_note_body sha256 user note) db
      ≡ (ok (record { content = body; etag = compute_etag sha256 body }), db)
unfolding run get_note_body
read_stored sha256 user note body x blob db active there same = rw (active, there, same) refl

persist-Served :
    (sha256 : List ℕ → Text) (user note : ℕ) (body : List ℕ) (if_match : Option Text) (db : Db)
    → Holds
        (λ r s. Served sha256 user note body r s.committed)
        (persist_note_body sha256 user note body if_match (open_session db))
unfolding persist_note_body
persist-Served sha256 user note body if_match db =
    let R : NoteUploadResponse → Session → Type 0 =
      λ r s. Served sha256 user note body r s.committed in
    let s : Session = open_session db in
    let existing : Option Note = find (is_active user note) db.notes in
    Holds-raise_if R (is_empty body) _ _ s λ _.
      Holds-lift R (or_validation_error (parse_note_blob body)) _ s λ m parsed.
        Holds-raise_if R (not (m.note_id == note)) _ _ s λ same.
          Holds-validate R m _ _ _ s λ count total.
            Holds-check_if_match R (etag_of existing) if_match _ _ s (
              Holds-continue R (Stored user note body m s) (store_note user note body m existing s)
                _ (store_note-Stored user note body m existing s refl)
                λ _ s₁ (blob, x, there, content, active, title, attachments).
                  Holds-continue R (After sha256 user note body s₁ x)
                    (recompute_note_sync_metadata sha256 user note (some body) (some m.updated_at)
                      s₁)
                    _ (recompute-Composite sha256 user note body m.updated_at s₁ x active)
                    λ r s₂ (composite, active', blobs, attachments').
                      let unchanged : s₂.pending.note_attachments ≡ db.note_attachments =
                        attachments' ∙ attachments in
                      record {
                        metadata = m;
                        parsed = or_validation_error-ok (parse_note_blob body) m parsed;
                        same_note = ground arith;
                        count = rw unchanged count;
                        total = rw unchanged total;
                        read_back =
                            read_stored sha256 user note body _ blob s₂.pending active'
                              (ap (find (is_blob user note)) blobs ∙ there) content;
                        row = _;
                        found = active';
                        title = title;
                        etag = refl;
                        updated_at = refl;
                        composite = rw attachments' composite;
                      })

-- When `put_note_body` returns a reply, `get_note_body` serves the uploaded bytes with their digest as
-- etag; the bytes parse, with the note's id, and with the number and the total size of the stored
-- attachments; and the row of the note has the title of the bytes and the etag and the time of the
-- reply, the etag being the composite of the digest and the attachments' etags.
pub put_note_body-Served :
    (sha256 : List ℕ → Text) (user_id note_id : ℕ) (body : List ℕ) (if_match : Option Text)
    (db db' : Db) (r : NoteUploadResponse)
    → run (put_note_body sha256 user_id note_id body if_match) db ≡ (ok r, db')
    → Served sha256 user_id note_id body r db'
unfolding put_note_body
put_note_body-Served sha256 user note body if_match db db' r h =
    Holds-run (Served sha256 user note body) (put_note_body sha256 user note body if_match) db db' r
      (Holds-raise_if (λ r s. Served sha256 user note body r s.committed)
        (ltb max_body_bytes (length body)) _ _ (open_session db)
        (λ _. persist-Served sha256 user note body if_match db))
      h
