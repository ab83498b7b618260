-- ===== src/Notes/Isolation/Actions.antt =====
-- app/notes/service.py: the actions that leave every note but one as it is.
use super_secure_notes_api.Prelude.{
  ℕ, ◌≡◌, refl, true, false, ◌&&◌, Option, none, some, List, ◌==◌, ==_refl,
}
use super_secure_notes_api.Prelude.Text.{Text}
use super_secure_notes_api.Parsers.Ssnt.{NoteMetadata}
use super_secure_notes_api.Db.Models.{synced, Note, NoteBlob, NoteAttachment, Db}
use super_secure_notes_api.Db.Table.{update, remove}
use super_secure_notes_api.Db.Session.{modify}
use super_secure_notes_api.Db.Session.Within.{
  Within, Within-bind, Within-pure, Within-raise_if, Within-query, Within-modify,
}
use super_secure_notes_api.Notes.Queries.{
  upload_chunks_of, is_note, is_blob, in_note, is_attachment, chunk_in_note, chunk_of,
}
use super_secure_notes_api.Notes.Service.{
  add_note, add_blob, store_blob, store_note, recompute_note_sync_metadata,
}
use super_secure_notes_api.Notes.Bodies.{persist_note_body, put_note_body, soft_delete_note}
use super_secure_notes_api.Notes.Attachments.{
  or_stored, store_attachment, promote_upload_chunks, finalize_chunked_upload, delete_attachment,
}
use super_secure_notes_api.Notes.Isolation.{
  SameNote, narrow, Keeps-update_notes, Keeps-add_note, Keeps-add_blob, Keeps-update_blobs,
  Keeps-remove_blobs, Keeps-remove_attachments, Keeps-add_attachment, Keeps-update_attachments,
  Keeps-remove_chunks, Keeps-promoted,
}
use super_secure_notes_api.Notes.Reads.{reads_rules}

-- `user`, `note` is written, `user'`, `note'` is another note.
module _ (user note user' note' : ℕ) (other : (user' == user && note' == note) ≡ false)
    (old : Db) where
  abbrev P : Db → Type 0
  P = SameNote user' note' old

  W-add_blob :
      (x : NoteBlob) → (x.user_id == user && x.note_id == note) ≡ true → Within P (add_blob x)
  unfolding add_blob
  W-add_blob x hit = search (
    Within-bind,
    Within-query,
    Within-raise_if,
    Within-modify,
    (Keeps-add_blob user note user' note' other old),
  )

  W-add_note : (x : Note) → (x.user_id == user && x.note_id == note) ≡ true → Within P (add_note x)
  unfolding add_note
  W-add_note x hit = search (
    Within-bind,
    Within-query,
    Within-raise_if,
    Within-modify,
    (Keeps-add_note user note user' note' other old),
  )

  mine : (user == user && note == note) ≡ true
  mine = rw (==_refl user, ==_refl note) refl

  W-store_blob :
      (body : List ℕ) (blob : Option NoteBlob) → Within P (store_blob user note body blob)
  unfolding store_blob
  W-store_blob body none = W-add_blob _ mine
  W-store_blob body (some blob) =
      Within-modify P _
        ((Keeps-update_blobs user note user' note' other old) _ (λ x. refl) (λ x. refl))

  W-store_note :
      (body : List ℕ) (m : NoteMetadata) (existing : Option Note)
      → Within P (store_note user note body m existing)
  unfolding store_note
  W-store_note body m none = search (Within-bind, W-add_note, W-store_blob, mine)
  W-store_note body m (some x) =
      let assigned = Within-modify P _ (
        (Keeps-update_notes user note user' note' other old)
          (λ x. record x { title = m.title; sync_state = synced }) (λ x. refl) (λ x. refl)) in
      search (Within-bind, reads_rules, W-store_blob)

  W-assign :
      (etag : Text) (t : ℕ)
      → Within P (
          modify λ db. record db {
            notes =
                update
                  (is_note user note)
                  (λ x. record x { etag = etag; updated_at = t; sync_state = synced })
                  db.notes;
          })
  W-assign etag t =
      Within-modify P _
        ((Keeps-update_notes user note user' note' other old) _ (λ x. refl) (λ x. refl))

  module _ (sha256 : List ℕ → Text) where
    pub W-recompute :
        (body : Option (List ℕ)) (time : Option ℕ)
        → Within P (recompute_note_sync_metadata sha256 user note body time)
    unfolding recompute_note_sync_metadata
    W-recompute body time = search (reads_rules, W-assign) depth 20

    -- Whatever `put_note_body` replies, every other note is as it was.
    pub put_note_body-Keeps :
        (body : List ℕ) (if_match : Option Text)
        → Within P (put_note_body sha256 user note body if_match)
    unfolding put_note_body persist_note_body
    put_note_body-Keeps body if_match = search (reads_rules, W-store_note, W-recompute) depth 30

    W-store_attachment :
        (att total : ℕ) (etag : Text) (content_type : Option Text) (now : ℕ)
        (existing : Option NoteAttachment)
        → Within P (store_attachment user note att total etag content_type now existing)
    unfolding store_attachment
    W-store_attachment att total etag content_type now none = search (
      Within-bind,
      Within-pure,
      Within-modify,
      (Keeps-add_attachment user note user' note' other old),
      mine,
    )
    W-store_attachment att total etag content_type now (some x) =
        Within-bind P _ _
          (Within-modify P _ (
            (Keeps-update_attachments user note user' note' other old) att _ (λ x. refl)
              (λ x. refl)))
          λ _. Within-pure P (or_stored content_type x.content_type)

    W-promote : (att k : ℕ) → Within P (promote_upload_chunks user note att k)
    unfolding promote_upload_chunks
    W-promote att k =
        Within-bind P _ _
          (Within-modify P _ ((Keeps-remove_chunks user note user' note' other old) att))
          λ _. Within-bind P _ _ (Within-query P (upload_chunks_of k)) λ chunks.
            Within-modify P _ ((Keeps-promoted user note user' note' other old) att chunks)

    pub finalize-Keeps :
        (now att k total : ℕ) (content_type if_match : Option Text)
        → Within P (finalize_chunked_upload sha256 now user note att k total content_type if_match)
    unfolding finalize_chunked_upload
    finalize-Keeps now att k total content_type if_match =
        search (reads_rules, W-store_attachment, W-promote, W-recompute) depth 30

    W-remove_attachment :
        (att : ℕ)
        → Within P (
            modify λ db. record db {
              note_attachments = remove (is_attachment user note att) db.note_attachments;
              attachment_chunks = remove (chunk_of user note att) db.attachment_chunks;
            })
    W-remove_attachment att = Within-modify P _ (
        (Keeps-remove_attachments user note user' note' other old) (is_attachment user note att)
          (chunk_of user note att)
          (λ x hit.
            (narrow user note user' note' other old) x.user_id x.note_id x.attachment_id att hit)
          (λ x hit.
            (narrow user note user' note' other old) x.user_id x.note_id x.attachment_id att hit))

    pub delete_attachment-Keeps : (att : ℕ) → Within P (delete_attachment sha256 user note att)
    unfolding delete_attachment
    delete_attachment-Keeps att = search (reads_rules, W-remove_attachment, W-recompute) depth 30

  W-mark :
      (now : ℕ)
      → Within P (
          modify λ db. record db {
            notes = update (is_note user note) (λ x. record x { deleted_at = some now }) db.notes;
          })
  W-mark now =
      Within-modify P _
        ((Keeps-update_notes user note user' note' other old) _ (λ x. refl) (λ x. refl))

  W-remove_blobs :
      Within P (modify λ db. record db { note_blobs = remove (is_blob user note) db.note_blobs })
  W-remove_blobs = Within-modify P _ (Keeps-remove_blobs user note user' note' other old)

  W-remove_all : Within P (
      modify λ db. record db {
        note_attachments = remove (in_note user note) db.note_attachments;
        attachment_chunks = remove (chunk_in_note user note) db.attachment_chunks;
      })
  W-remove_all = Within-modify P _ (
      (Keeps-remove_attachments user note user' note' other old) (in_note user note)
        (chunk_in_note user note) (λ x hit. hit) (λ x hit. hit))

  pub soft_delete_note-Keeps : (now : ℕ) → Within P (soft_delete_note now user note)
  unfolding soft_delete_note
  soft_delete_note-Keeps now = search (reads_rules, W-mark, W-remove_blobs, W-remove_all) depth 30
