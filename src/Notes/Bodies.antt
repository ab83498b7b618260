-- ===== src/Notes/Bodies.antt =====
-- app/notes/service.py: `persist_note_body` and `soft_delete_note`; app/notes/router.py: the routes
-- of note bodies.
pub mod Rollback
pub mod Stored
pub mod Served
pub mod Deleted
use super_secure_notes_api.Prelude.{
  ℕ, Bool, true, false, not, Option, none, some, List, [], ◌∷◌, length, ltb, ◌==◌, if◌then◌else◌,
}
use super_secure_notes_api.Prelude.Text.{Text}
use super_secure_notes_api.Parsers.Ssnt.{parse_note_blob}
use super_secure_notes_api.Errors.{validation_error, note_not_found, body_not_found}
use super_secure_notes_api.Db.Models.{Db, synced}
use super_secure_notes_api.Db.Table.{remove, update}
use super_secure_notes_api.Db.Session.{
  Action, api_error, ◌>>=◌, ◌>>◌, pure, raise, raise_if, lift, modify, commit,
}
use super_secure_notes_api.Notes.ChunkSize.{max_body_bytes}
use super_secure_notes_api.Notes.Etag.{compute_etag}
use super_secure_notes_api.Notes.Schemas.{NoteUploadResponse, ContentResponse}
use super_secure_notes_api.Notes.Queries.{
  is_note, is_blob, in_note, chunk_in_note, get_active_note, get_note_blob, attachment_stats,
}
use super_secure_notes_api.Notes.Service.{
  or_validation_error, or_raise, check_if_match, validate_manifest_consistency, etag_of, store_note,
  recompute_note_sync_metadata,
}

-- `not body`
abbrev pub is_empty : List ℕ → Bool
is_empty [] = true
is_empty (x ∷ xs) = false

module _ (sha256 : List ℕ → Text) where
  unfoldable pub persist_note_body : ℕ → ℕ → List ℕ → Option Text → Action NoteUploadResponse
  unfolding get_active_note attachment_stats
  persist_note_body user_id note_id body if_match = do
    raise_if (is_empty body) (api_error (validation_error "Note body is required."))
    metadata ← lift (or_validation_error (parse_note_blob body))
    raise_if (not (metadata.note_id == note_id))
        (api_error (validation_error "Note ID in blob does not match URL."))
    stats ← attachment_stats user_id note_id
    validate_manifest_consistency metadata stats.0 stats.1
    existing ← get_active_note user_id note_id
    check_if_match (etag_of existing) if_match "Note etag does not match."
    store_note user_id note_id body metadata existing
    result ←
        recompute_note_sync_metadata sha256 user_id note_id (some body) (some metadata.updated_at)
    commit
    pure (record { sync_state = synced; updated_at = result.1; etag = result.0 })

  unfoldable pub put_note_body : ℕ → ℕ → List ℕ → Option Text → Action NoteUploadResponse
  put_note_body user_id note_id body if_match = do
    raise_if (ltb max_body_bytes (length body)) (
        api_error
          (validation_error "Note body exceeds 10 MB; keep body small and use attachment routes."))
    persist_note_body user_id note_id body if_match

  unfoldable pub get_note_body : ℕ → ℕ → Action ContentResponse
  unfolding get_active_note get_note_blob
  get_note_body user_id note_id = do
    found ← get_active_note user_id note_id
    _ ← or_raise found note_not_found
    blob ← get_note_blob user_id note_id
    blob ← or_raise blob body_not_found
    pure (record { content = blob.content; etag = compute_etag sha256 blob.content })

-- `now` is `datetime.now(UTC)`. The chunks of the attachments go by `ON DELETE CASCADE`.
unfoldable pub soft_delete_note : ℕ → ℕ → ℕ → Action (Unit {0})
unfolding get_active_note
soft_delete_note now user_id note_id = do
  found ← get_active_note user_id note_id
  _ ← or_raise found note_not_found
  modify λ db. record db {
    notes = update (is_note user_id note_id) (λ x. record x { deleted_at = some now }) db.notes;
  }
  modify λ db. record db { note_blobs = remove (is_blob user_id note_id) db.note_blobs }
  modify λ db. record db {
    note_attachments = remove (in_note user_id note_id) db.note_attachments;
    attachment_chunks = remove (chunk_in_note user_id note_id) db.attachment_chunks;
  }
  commit
