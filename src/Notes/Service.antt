-- ===== src/Notes/Service.antt =====
-- app/notes/service.py: the operations on notes and attachments, each an action on the session.
-- `sha256` is `hashlib.sha256(…).hexdigest()`; the clock readings of an operation are its arguments.
use Prim.Native.String.{String}
use super_secure_notes_api.Prelude.{
  ℕ, not, Option, none, some, List, [], ◌∷◌, map, max, ◌==◌, length,
}
use super_secure_notes_api.Prelude.Result.{Result, ok, err}
use super_secure_notes_api.Prelude.Text.{Text, text_eq, strip_quotes}
use super_secure_notes_api.Parsers.Buffer.{ParseFailure, parse_error}
use super_secure_notes_api.Parsers.Buffer
use super_secure_notes_api.Parsers.Ssnt.{NoteMetadata, parse_note_blob}
use super_secure_notes_api.Errors.{
  ApiError, parse_message, validation_error, note_not_found, body_not_found, conflict,
}
use super_secure_notes_api.Db.Models.{Note, NoteBlob, NoteAttachment, synced}
use super_secure_notes_api.Db.Table.{exists, update}
use super_secure_notes_api.Db.Session.{
  Action, Failure, api_error, integrity_error, unicode_decode_error, ◌>>=◌, ◌>>◌, pure, raise,
  raise_if, lift, query, modify,
}
use super_secure_notes_api.Notes.Etag.{compute_etag, compute_composite_etag}
use super_secure_notes_api.Notes.Queries.{
  is_note, is_blob, get_active_note, get_note_blob, list_note_attachments, upload_chunks_of, concat,
}

-- `except ParseError as exc: raise APIError(400, "validation_error", str(exc))`. No handler catches
-- the `UnicodeDecodeError`.
unfoldable pub or_validation_error : {A : Type 0} → Result ParseFailure A → Result Failure A
or_validation_error (ok a) = ok a
or_validation_error (err (parse_error e)) = err (
    api_error (record { status_code = 400; error = "validation_error"; message = parse_message e }))
or_validation_error (err Buffer.unicode_decode_error) = err unicode_decode_error

-- `if x is None: raise e`
abbrev pub or_raise : {A : Type 0} → Option A → ApiError → Action A
or_raise none e = raise (api_error e)
or_raise (some a) e = pure a

-- The test of `If-Match` against the row that is there already.
unfoldable pub check_if_match : Option Text → Option Text → String → Action (Unit {0})
check_if_match (some etag) (some if_match) message =
    raise_if (not (text_eq etag (strip_quotes if_match))) (api_error (conflict message))
check_if_match _ _ message = pure tt

unfoldable pub validate_manifest_consistency : NoteMetadata → ℕ → ℕ → Action (Unit {0})
validate_manifest_consistency metadata attachment_count attachments_total_size = do
  raise_if (not (metadata.attachment_count == attachment_count))
      (api_error (validation_error "SSNT attachment_count does not match stored attachments."))
  raise_if (not (metadata.attachments_total_size == attachments_total_size)) (
      api_error (validation_error "SSNT attachments_total_size does not match stored attachments."))

-- `max((a.updated_at for a in attachments), default=0)`
abbrev pub max_updated_at : List NoteAttachment → ℕ
max_updated_at [] = 0
max_updated_at (x ∷ xs) = max x.updated_at (max_updated_at xs)

-- The body that is hashed, and its time: given, or read from the table and parsed.
unfoldable pub body_or_stored : ℕ → ℕ → Option (List ℕ) → Action (List ℕ)
unfolding get_note_blob
body_or_stored user_id note_id (some body_bytes) = pure body_bytes
body_or_stored user_id note_id none = do
  found ← get_note_blob user_id note_id
  blob ← or_raise found body_not_found
  pure blob.content

unfoldable pub time_or_parsed : List ℕ → Option ℕ → Action ℕ
unfolding or_validation_error
time_or_parsed body_bytes (some body_updated_at) = pure body_updated_at
time_or_parsed body_bytes none = do
  metadata ← lift (or_validation_error (parse_note_blob body_bytes))
  pure metadata.updated_at

-- A primary key that is taken already makes the flush fail.
unfoldable pub add_note : Note → Action (Unit {0})
add_note x = do
  taken ← query λ db. exists (is_note x.user_id x.note_id) db.notes
  raise_if taken integrity_error
  modify λ db. record db { notes = x ∷ db.notes }

unfoldable pub add_blob : NoteBlob → Action (Unit {0})
add_blob x = do
  taken ← query λ db. exists (is_blob x.user_id x.note_id) db.note_blobs
  raise_if taken integrity_error
  modify λ db. record db { note_blobs = x ∷ db.note_blobs }

unfoldable pub etag_of : Option Note → Option Text
etag_of none = none
etag_of (some x) = some x.etag

unfoldable pub attachment_etag_of : Option NoteAttachment → Option Text
attachment_etag_of none = none
attachment_etag_of (some x) = some x.etag

-- The blob of a body: replaced if there is one, else added.
unfoldable pub store_blob : ℕ → ℕ → List ℕ → Option NoteBlob → Action (Unit {0})
unfolding add_blob
store_blob user_id note_id body none =
    add_blob
      (record { user_id = user_id; note_id = note_id; content = body; size_bytes = length body })
store_blob user_id note_id body (some blob) = modify λ db. record db {
  note_blobs =
      update (is_blob user_id note_id) (λ x. record x { content = body; size_bytes = length body })
        db.note_blobs;
}

-- The branches on `existing`, up to the flush.
unfoldable pub store_note : ℕ → ℕ → List ℕ → NoteMetadata → Option Note → Action (Unit {0})
unfolding add_note store_blob get_note_blob
store_note user_id note_id body metadata none = do
  add_note (record {
    user_id = user_id;
    note_id = note_id;
    title = metadata.title;
    updated_at = metadata.updated_at;
    etag = [];
    sync_state = synced;
    deleted_at = none;
  })
  store_blob user_id note_id body none
store_note user_id note_id body metadata (some existing) = do
  modify λ db. record db {
    notes =
        update (is_note user_id note_id)
          (λ x. record x { title = metadata.title; sync_state = synced }) db.notes;
  }
  blob ← get_note_blob user_id note_id
  store_blob user_id note_id body blob

module _ (sha256 : List ℕ → Text) where
  unfoldable pub compute_upload_etag : ℕ → Action Text
  compute_upload_etag upload_id = query λ db. sha256 (concat (upload_chunks_of upload_id db))

  unfoldable pub recompute_note_sync_metadata :
      ℕ → ℕ → Option (List ℕ) → Option ℕ → Action (Text × ℕ)
  unfolding get_active_note list_note_attachments body_or_stored time_or_parsed
  recompute_note_sync_metadata user_id note_id given_body given_time = do
    found ← get_active_note user_id note_id
    _ ← or_raise found note_not_found
    body_bytes ← body_or_stored user_id note_id given_body
    body_updated_at ← time_or_parsed body_bytes given_time
    attachments ← list_note_attachments user_id note_id
    let composite =
        compute_composite_etag sha256 (compute_etag sha256 body_bytes)
          (map (λ a. (a.attachment_id, a.etag)) attachments)
    let updated_at = max body_updated_at (max_updated_at attachments)
    modify λ db. record db {
      notes =
          update (is_note user_id note_id)
            (λ x. record x { etag = composite; updated_at = updated_at; sync_state = synced })
            db.notes;
    }
    pure (composite, updated_at)
