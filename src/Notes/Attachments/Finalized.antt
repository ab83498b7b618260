-- ===== src/Notes/Attachments/Finalized.antt =====
-- app/notes/service.py: what `finalize_chunked_upload` leaves in the tables when it succeeds.
use super_secure_notes_api.Prelude.{
  ℕ, ◌≡◌, refl, ap, ◌∙◌, Option, none, some, List, ◌++◌, arith, map, ==_refl, Option-cases, inl,
  inr,
}
use super_secure_notes_api.Prelude.Text.{Text}
use super_secure_notes_api.Parsers.Ssnt.{NoteMetadata, parse_note_blob}
use super_secure_notes_api.Db.Models.{Note, NoteAttachment, AttachmentChunk}
use super_secure_notes_api.Db.Table.{select, order_by, find, remove}
use super_secure_notes_api.Db.Table.Laws.{assigned, find-update}
use super_secure_notes_api.Db.Session.{Session, pure}
use super_secure_notes_api.Db.Session.Holds.{Holds, Holds-continue, Holds-lift}
use super_secure_notes_api.Notes.Schemas.{AttachmentUploadResponse}
use super_secure_notes_api.Notes.Queries.{
  is_note, is_active, is_blob, is_attachment, chunk_of, in_upload, concat, upload_chunks_of,
}
use super_secure_notes_api.Notes.Service.{
  or_validation_error, attachment_etag_of, compute_upload_etag, recompute_note_sync_metadata,
  body_or_stored, time_or_parsed,
}
use super_secure_notes_api.Notes.Attachments.{
  promoted, promote_upload_chunks, store_attachment, finalize_chunked_upload,
}
use super_secure_notes_api.Notes.Checks.{Holds-check_if_match}

-- The note is active, and its attachments and their chunks are as they were.
abbrev Kept : ℕ → ℕ → Session → Text × ℕ → Session → Type 0
Kept user note s r s' =
    (y : Note) × (find (is_active user note) s'.pending.notes ≡ some y)
    × (s'.pending.note_attachments ≡ s.pending.note_attachments)
    × (s'.pending.attachment_chunks ≡ s.pending.attachment_chunks)

time_or_parsed_frame :
    (body : List ℕ) (s : Session) → Holds (λ _ s'. s' ≡ s) (time_or_parsed body none s)
unfolding time_or_parsed
time_or_parsed_frame body s =
    Holds-lift (λ _ s'. s' ≡ s) (or_validation_error (parse_note_blob body))
      (λ (m : NoteMetadata). pure m.updated_at) s (λ _ _. refl)

recompute-Kept :
    (sha256 : List ℕ → Text) (user note : ℕ) (s : Session)
    → Holds (Kept user note s) (recompute_note_sync_metadata sha256 user note none none s)
unfolding recompute_note_sync_metadata body_or_stored
recompute-Kept sha256 user note s =
    elim (Option-cases (find (is_active user note) s.pending.notes)) [
      | inl e ↦ rw e tt
      | inr (x, e) ↦ elim (Option-cases (find (is_blob user note) s.pending.note_blobs)) [
        | inl b ↦ rw (e, b) tt
        | inr (blob, b) ↦
            rw (e, b)
              (Holds-continue (Kept user note s) (λ _ s'. s' ≡ s)
                (time_or_parsed blob.content none s) _ (time_or_parsed_frame blob.content s)
                λ time s' same. (
                  _,
                  find-update (is_active user note) (is_note user note) _ s'.pending.notes
                        (λ y. refl) (λ y hit. ground arith)
                      ∙ ap (assigned _) (
                          ap (λ (t : Session). find (is_active user note) t.pending.notes) same
                          ∙ e),
                  ap (λ (t : Session). t.pending.note_attachments) same,
                  ap (λ (t : Session). t.pending.attachment_chunks) same,
                ))
      ]
    ]

-- The attachment has the size and the etag, and the chunks of uploads and of attachments are as they
-- were.
abbrev HasAttachment : ℕ → ℕ → ℕ → ℕ → Text → Session → Option Text → Session → Type 0
HasAttachment user note att total etag s _ s' =
    (a : NoteAttachment) × (find (is_attachment user note att) s'.pending.note_attachments ≡ some a)
    × (a.size_bytes ≡ total)
    × (a.etag ≡ etag)
    × (s'.pending.upload_chunks ≡ s.pending.upload_chunks)
    × (s'.pending.attachment_chunks ≡ s.pending.attachment_chunks)

store_attachment-HasAttachment :
    (user note att total now : ℕ) (etag : Text) (content_type : Option Text)
    (o : Option NoteAttachment) (s : Session)
    → find (is_attachment user note att) s.pending.note_attachments ≡ o
    → Holds
        (HasAttachment user note att total etag s)
        (store_attachment user note att total etag content_type now o s)
unfolding store_attachment find
store_attachment-HasAttachment user note att total now etag content_type none s found = (
  record {
    user_id = user;
    note_id = note;
    attachment_id = att;
    size_bytes = total;
    etag = etag;
    content_type = content_type;
    updated_at = now;
  },
  rw (==_refl user, ==_refl note, ==_refl att) refl,
  refl,
  refl,
  refl,
  refl,
)
store_attachment-HasAttachment user note att total now etag content_type (some x) s found = (
  _,
  find-update (is_attachment user note att) (is_attachment user note att) _
        s.pending.note_attachments (λ y. refl) (λ y hit. hit)
      ∙ ap (assigned _) found,
  refl,
  refl,
  refl,
  refl,
)

-- What is left of an upload that is finished.
abbrev pub Finalized :
    (List ℕ → Text) → ℕ → ℕ → ℕ → ℕ → ℕ → Session → AttachmentUploadResponse → Session → Type 0
Finalized sha256 user note att k total s r s' =
    (y : Note) × (a : NoteAttachment) × (rest : List AttachmentChunk) × (find (is_active user note)
        s'.pending.notes
      ≡ some y)
    × (find (is_attachment user note att) s'.pending.note_attachments ≡ some a)
    × (a.size_bytes ≡ total)
    × (a.etag ≡ r.etag)
    × (r.size_bytes ≡ total)
    × (r.etag ≡ sha256 (concat (upload_chunks_of k s.pending)))
    × (s'.pending.attachment_chunks
        ≡ map (promoted user note att) (upload_chunks_of k s.pending) ++ rest)

abbrev promoted_in : ℕ → ℕ → ℕ → ℕ → Session → Session
promoted_in user note att k s = (promote_upload_chunks user note att k s).1

pub finalize-Finalized :
    (sha256 : List ℕ → Text) (now user note att k total : ℕ) (content_type if_match : Option Text)
    (s : Session)
    → Holds
        (Finalized sha256 user note att k total s)
        (finalize_chunked_upload sha256 now user note att k total content_type if_match s)
unfolding finalize_chunked_upload compute_upload_etag promote_upload_chunks upload_chunks_of
finalize-Finalized sha256 now user note att k total content_type if_match s =
    let R = Finalized sha256 user note att k total s in
    let existing = find (is_attachment user note att) s.pending.note_attachments in
    let etag = sha256 (concat (upload_chunks_of k s.pending)) in
    elim (Option-cases (find (is_active user note) s.pending.notes)) [
      | inl e ↦ rw e tt
      | inr (x, e) ↦ rw e (
          Holds-check_if_match R (attachment_etag_of existing) if_match _ _ s (
            Holds-continue R (HasAttachment user note att total etag s)
              (store_attachment user note att total etag content_type now existing s) _
              (store_attachment-HasAttachment user note att total now etag content_type existing s
                refl)
              λ content s₁ (a, there, size, tag, uploads, old).
                Holds-continue R (Kept user note (promoted_in user note att k s₁))
                  (recompute_note_sync_metadata sha256 user note none none
                    (promoted_in user note att k s₁))
                  _ (recompute-Kept sha256 user note (promoted_in user note att k s₁))
                  λ r s₂ (y, active, attachments, chunks). (
                    y,
                    a,
                    remove (chunk_of user note att) s₁.pending.attachment_chunks,
                    active,
                    ap (find (is_attachment user note att)) attachments ∙ there,
                    size,
                    tag,
                    refl,
                    refl,
                    chunks
                        ∙ ap
                            (λ cs.
                              map (promoted user note att)
                                (order_by (λ c. c.chunk_index) (select (in_upload k) cs))
                              ++ remove (chunk_of user note att) s₁.pending.attachment_chunks)
                            uploads,
                  )))
    ]
