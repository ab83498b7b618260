-- ===== src/Notes/Isolation.antt =====
-- app/notes/service.py: a request that writes one note leaves every other note as it is.
pub mod Actions
use Prim.Native.String.{String}
use super_secure_notes_api.Prelude.{
  ℕ, ◌≡◌, refl, ◌∙◌, Bool, true, false, ◌&&◌, Option, none, some, List, arith, ◌==◌, ==_refl, ◌∷◌,
  [], ◌++◌, map,
}
use super_secure_notes_api.Prelude.Result.{Result, ok, err}
use super_secure_notes_api.Prelude.Text.{Text}
use super_secure_notes_api.Errors.{ApiError}
use super_secure_notes_api.Parsers.Ssnt.{NoteMetadata}
use super_secure_notes_api.Db.Models.{
  synced, Note, NoteBlob, NoteAttachment, AttachmentChunk, UploadChunk, Db,
}
use super_secure_notes_api.Db.Table.{select, find, update, remove}
use super_secure_notes_api.Db.Table.Laws.{
  find-update_other, find-remove_ne, select-remove_ne, select-update_ne,
}
use super_secure_notes_api.Db.Session.{Action, query, modify, commit}
use super_secure_notes_api.Db.Session.Within.{
  Within, Within-bind, Within-pure, Within-raise_if, Within-lift, Within-query, Within-commit,
  Within-modify,
}
use super_secure_notes_api.Notes.Queries.{
  upload_chunks_of, is_none, list_note_attachments, is_note, is_active, is_blob, in_note,
  is_attachment, chunk_in_note, chunk_of, get_active_note, get_note_blob, get_note_attachment,
  attachment_stats,
}
use super_secure_notes_api.Notes.Service.{
  compute_upload_etag, add_note, add_blob, store_blob, body_or_stored, time_or_parsed, or_raise,
  check_if_match, validate_manifest_consistency, store_note, recompute_note_sync_metadata,
}
use super_secure_notes_api.Notes.Bodies.{persist_note_body, put_note_body, soft_delete_note}
use super_secure_notes_api.Notes.Attachments.{
  promoted, or_stored, store_attachment, promote_upload_chunks, finalize_chunked_upload,
  delete_attachment,
}

-- The rows of a note are those of another state of the tables.
pub record SameNote (user_id note_id : ℕ) (before after : Db) : Type 0 where
  pub note :
      find (is_active user_id note_id) after.notes ≡ find (is_active user_id note_id) before.notes
  pub blob :
      find (is_blob user_id note_id) after.note_blobs
      ≡ find (is_blob user_id note_id) before.note_blobs
  pub attachments :
      select (in_note user_id note_id) after.note_attachments
      ≡ select (in_note user_id note_id) before.note_attachments
  pub chunks :
      select (chunk_in_note user_id note_id) after.attachment_chunks
      ≡ select (chunk_in_note user_id note_id) before.attachment_chunks

pub SameNote-refl : (user_id note_id : ℕ) (db : Db) → SameNote user_id note_id db db
SameNote-refl user_id note_id db = record {
  note = refl;
  blob = refl;
  attachments = refl;
  chunks = refl;
}

-- `user`, `note` is written, `user'`, `note'` is another note.
module _ (user note user' note' : ℕ) (other : (user' == user && note' == note) ≡ false)
    (old : Db) where
  abbrev P : Db → Type 0
  P = SameNote user' note' old

  apart :
      (a b : ℕ) (more : Bool)
      → (a == user && b == note) ≡ true
      → (a == user' && (b == note' && more)) ≡ false
  apart a b more hit = ground (arith, hit, other)

  apart_ids : (a b : ℕ) → (a == user && b == note) ≡ true → (a == user' && b == note') ≡ false
  apart_ids a b hit = ground (arith, hit, other)

  pub narrow :
      (a b c att : ℕ)
      → (a == user && (b == note && c == att)) ≡ true
      → (a == user && b == note) ≡ true
  narrow a b c att hit = ground (arith, hit)

  -- Assignments to the row of the note that keep its ids.
  pub Keeps-update_notes :
      (f : Note → Note)
      → ((x : Note) → (f x).user_id ≡ x.user_id)
      → ((x : Note) → (f x).note_id ≡ x.note_id)
      → (db : Db) → P db
      → P (record db { notes = update (is_note user note) f db.notes })
  Keeps-update_notes f ids notes db p = record {
    note =
        find-update_other (is_active user' note') (is_note user note) f db.notes
          (λ x hit. apart x.user_id x.note_id _ hit)
          (λ x hit. rw (ids x, notes x) (apart x.user_id x.note_id _ hit))
        ∙ p.note;
    blob = p.blob;
    attachments = p.attachments;
    chunks = p.chunks;
  }

  -- A row of the note is added.
  pub Keeps-add_note :
      (x : Note)
      → (x.user_id == user && x.note_id == note) ≡ true
      → (db : Db) → P db
      → P (record db { notes = x ∷ db.notes })
  unfolding find
  Keeps-add_note x hit db p = record {
    note = rw (apart x.user_id x.note_id (is_none x.deleted_at) hit) p.note;
    blob = p.blob;
    attachments = p.attachments;
    chunks = p.chunks;
  }

  pub Keeps-add_blob :
      (x : NoteBlob)
      → (x.user_id == user && x.note_id == note) ≡ true
      → (db : Db) → P db
      → P (record db { note_blobs = x ∷ db.note_blobs })
  unfolding find
  Keeps-add_blob x hit db p = record {
    note = p.note;
    blob = rw (apart_ids x.user_id x.note_id hit) p.blob;
    attachments = p.attachments;
    chunks = p.chunks;
  }

  pub Keeps-update_blobs :
      (f : NoteBlob → NoteBlob)
      → ((x : NoteBlob) → (f x).user_id ≡ x.user_id)
      → ((x : NoteBlob) → (f x).note_id ≡ x.note_id)
      → (db : Db) → P db
      → P (record db { note_blobs = update (is_blob user note) f db.note_blobs })
  Keeps-update_blobs f ids notes db p = record {
    note = p.note;
    blob =
        find-update_other (is_blob user' note') (is_blob user note) f db.note_blobs
          (λ x hit. apart_ids x.user_id x.note_id hit)
          (λ x hit. rw (ids x, notes x) (apart_ids x.user_id x.note_id hit))
        ∙ p.blob;
    attachments = p.attachments;
    chunks = p.chunks;
  }

  pub Keeps-remove_blobs :
      (db : Db) → P db → P (record db { note_blobs = remove (is_blob user note) db.note_blobs })
  Keeps-remove_blobs db p = record {
    note = p.note;
    blob =
        find-remove_ne (is_blob user' note') (is_blob user note) db.note_blobs
          (λ x hit. apart_ids x.user_id x.note_id hit)
        ∙ p.blob;
    attachments = p.attachments;
    chunks = p.chunks;
  }

  -- Attachments and their chunks go, those that two tests meet.
  pub Keeps-remove_attachments :
      (q : NoteAttachment → Bool) (r : AttachmentChunk → Bool)
      → ((x : NoteAttachment) → q x ≡ true → in_note user note x ≡ true)
      → ((x : AttachmentChunk) → r x ≡ true → chunk_in_note user note x ≡ true)
      → (db : Db) → P db
      → P (record db {
        note_attachments = remove q db.note_attachments;
        attachment_chunks = remove r db.attachment_chunks;
      })
  Keeps-remove_attachments q r hq hr db p = record {
    note = p.note;
    blob = p.blob;
    attachments =
        select-remove_ne (in_note user' note') q db.note_attachments
          (λ x hit. apart_ids x.user_id x.note_id (hq x hit))
        ∙ p.attachments;
    chunks =
        select-remove_ne (chunk_in_note user' note') r db.attachment_chunks
          (λ x hit. apart_ids x.user_id x.note_id (hr x hit))
        ∙ p.chunks;
  }

  pub Keeps-add_attachment :
      (x : NoteAttachment)
      → (x.user_id == user && x.note_id == note) ≡ true
      → (db : Db) → P db
      → P (record db { note_attachments = x ∷ db.note_attachments })
  unfolding select
  Keeps-add_attachment x hit db p = record {
    note = p.note;
    blob = p.blob;
    attachments = rw (apart_ids x.user_id x.note_id hit) p.attachments;
    chunks = p.chunks;
  }

  pub Keeps-update_attachments :
      (att : ℕ) (f : NoteAttachment → NoteAttachment)
      → ((x : NoteAttachment) → (f x).user_id ≡ x.user_id)
      → ((x : NoteAttachment) → (f x).note_id ≡ x.note_id)
      → (db : Db) → P db
      → P (record db {
        note_attachments = update (is_attachment user note att) f db.note_attachments;
      })
  Keeps-update_attachments att f ids notes db p = record {
    note = p.note;
    blob = p.blob;
    attachments =
        select-update_ne (in_note user' note') (is_attachment user note att) f db.note_attachments
          (λ x. rw (ids x, notes x) refl)
          (λ x hit.
            apart_ids x.user_id x.note_id (narrow x.user_id x.note_id x.attachment_id att hit))
        ∙ p.attachments;
    chunks = p.chunks;
  }

  pub Keeps-remove_chunks :
      (att : ℕ) (db : Db)
      → P db
      → P (record db { attachment_chunks = remove (chunk_of user note att) db.attachment_chunks })
  Keeps-remove_chunks att db p = record {
    note = p.note;
    blob = p.blob;
    attachments = p.attachments;
    chunks =
        select-remove_ne (chunk_in_note user' note') (chunk_of user note att) db.attachment_chunks
          (λ x hit.
            apart_ids x.user_id x.note_id (narrow x.user_id x.note_id x.attachment_id att hit))
        ∙ p.chunks;
  }

  select-promoted :
      (att : ℕ) (chunks : List UploadChunk) (rest : List AttachmentChunk)
      → select (chunk_in_note user' note') (map (promoted user note att) chunks ++ rest)
        ≡ select (chunk_in_note user' note') rest
  unfolding select
  select-promoted att [] rest = refl
  select-promoted att (x ∷ chunks) rest =
      rw (apart_ids user note (rw (==_refl user, ==_refl note) refl))
        (select-promoted att chunks rest)

  pub Keeps-promoted :
      (att : ℕ) (chunks : List UploadChunk) (db : Db)
      → P db
      → P (record db {
        attachment_chunks = map (promoted user note att) chunks ++ db.attachment_chunks;
      })
  Keeps-promoted att chunks db p = record {
    note = p.note;
    blob = p.blob;
    attachments = p.attachments;
    chunks = select-promoted att chunks db.attachment_chunks ∙ p.chunks;
  }
