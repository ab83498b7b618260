-- ===== src/Notes/Queries.antt =====
-- app/notes/service.py: the tests on rows and the queries that the handlers share.
use super_secure_notes_api.Prelude.{
  ℕ, ◌+◌, Bool, true, false, ◌&&◌, Option, none, some, List, [], ◌∷◌, ◌++◌, ◌==◌, length,
}
use super_secure_notes_api.Prelude.Int.{ℤ, pos, negsuc}
use super_secure_notes_api.Db.Models.{
  Note, NoteBlob, NoteAttachment, AttachmentChunk, UploadChunk, Db,
}
use super_secure_notes_api.Db.Table.{select, find, order_by}
use super_secure_notes_api.Db.Session.{Action, query}

abbrev pub is_none {ℓ} : {A : Type ℓ} → Option A → Bool
is_none none = true
is_none (some a) = false

-- `Note.user_id == user_id, Note.note_id == note_id`, for each table of notes' rows.
abbrev pub is_note : ℕ → ℕ → Note → Bool
is_note user_id note_id x = x.user_id == user_id && x.note_id == note_id

abbrev pub is_active : ℕ → ℕ → Note → Bool
is_active user_id note_id x = x.user_id == user_id && (x.note_id == note_id && is_none x.deleted_at)

abbrev pub is_blob : ℕ → ℕ → NoteBlob → Bool
is_blob user_id note_id x = x.user_id == user_id && x.note_id == note_id

abbrev pub in_note : ℕ → ℕ → NoteAttachment → Bool
in_note user_id note_id x = x.user_id == user_id && x.note_id == note_id

abbrev pub is_attachment : ℕ → ℕ → ℕ → NoteAttachment → Bool
is_attachment user_id note_id attachment_id x =
    x.user_id == user_id && (x.note_id == note_id && x.attachment_id == attachment_id)

abbrev pub chunk_in_note : ℕ → ℕ → AttachmentChunk → Bool
chunk_in_note user_id note_id x = x.user_id == user_id && x.note_id == note_id

abbrev pub chunk_of : ℕ → ℕ → ℕ → AttachmentChunk → Bool
chunk_of user_id note_id attachment_id x =
    x.user_id == user_id && (x.note_id == note_id && x.attachment_id == attachment_id)

-- A negative index is in no row.
abbrev pub has_index : ℤ → ℕ → Bool
has_index (pos i) j = j == i
has_index (negsuc i) j = false

abbrev pub in_upload : ℕ → UploadChunk → Bool
in_upload upload_id x = x.upload_id == upload_id

unfoldable pub get_active_note : ℕ → ℕ → Action (Option Note)
get_active_note user_id note_id = query λ db. find (is_active user_id note_id) db.notes

-- The `select(NoteBlob)` of the handlers that read a body.
unfoldable pub get_note_blob : ℕ → ℕ → Action (Option NoteBlob)
get_note_blob user_id note_id = query λ db. find (is_blob user_id note_id) db.note_blobs

unfoldable pub list_note_attachments : ℕ → ℕ → Action (List NoteAttachment)
list_note_attachments user_id note_id =
    query
      λ db. order_by (λ x. x.attachment_id) (select (in_note user_id note_id) db.note_attachments)

unfoldable pub get_note_attachment : ℕ → ℕ → ℕ → Action (Option NoteAttachment)
get_note_attachment user_id note_id attachment_id =
    query λ db. find (is_attachment user_id note_id attachment_id) db.note_attachments

unfoldable pub get_note_attachment_chunk : ℕ → ℕ → ℕ → ℤ → Action (Option AttachmentChunk)
get_note_attachment_chunk user_id note_id attachment_id chunk_index = query λ db.
    find (λ x. chunk_of user_id note_id attachment_id x && has_index chunk_index x.chunk_index)
      db.attachment_chunks

-- `select(UploadChunk).where(...).order_by(UploadChunk.chunk_index)`
unfoldable pub upload_chunks_of : ℕ → Db → List UploadChunk
upload_chunks_of upload_id db =
    order_by (λ x. x.chunk_index) (select (in_upload upload_id) db.upload_chunks)

-- The bytes of some chunks, one after another.
abbrev pub concat : List UploadChunk → List ℕ
concat [] = []
concat (x ∷ xs) = x.content ++ concat xs

abbrev pub total_size_of : List NoteAttachment → ℕ
total_size_of [] = 0
total_size_of (x ∷ xs) = x.size_bytes + total_size_of xs

-- `func.count()` and `func.coalesce(func.sum(size_bytes), 0)`
unfoldable pub attachment_stats : ℕ → ℕ → Action (ℕ × ℕ)
attachment_stats user_id note_id = query λ db.
    let rows = select (in_note user_id note_id) db.note_attachments in
    (length rows, total_size_of rows)
