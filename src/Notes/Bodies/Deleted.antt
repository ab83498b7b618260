-- ===== src/Notes/Bodies/Deleted.antt =====
-- app/notes/service.py: what `soft_delete_note` leaves of a note, and what an upload to it meets.
use super_secure_notes_api.Prelude.{
  ℕ, ◌≡◌, refl, ◌≤◌, true, false, Option, none, some, List, [], ◌∷◌, arith, ◌==◌, ltb, length, ap,
  subst, Option-cases, inl, inr,
}
use super_secure_notes_api.Prelude.Result.{Result, ok, err}
use super_secure_notes_api.Prelude.Text.{Text}
use super_secure_notes_api.Parsers.Ssnt.{NoteMetadata, parse_note_blob}
use super_secure_notes_api.Errors.{note_not_found}
use super_secure_notes_api.Db.Models.{Note, Db}
use super_secure_notes_api.Db.Table.{select, find, remove, exists, update}
use super_secure_notes_api.Db.Table.Laws.{find-remove, select-remove}
use super_secure_notes_api.Db.Session.{Failure, api_error, integrity_error, run}
use super_secure_notes_api.Notes.ChunkSize.{max_body_bytes}
use super_secure_notes_api.Notes.Queries.{is_note, is_active, is_blob, in_note, chunk_in_note}
use super_secure_notes_api.Notes.Service.{
  or_validation_error, validate_manifest_consistency, check_if_match, etag_of, store_note,
}
use super_secure_notes_api.Notes.Attachments.{list_attachments}
use super_secure_notes_api.Notes.Bodies.{
  persist_note_body, put_note_body, get_note_body, soft_delete_note,
}

-- A note that is marked is not active any more.
find-marked :
    (now user note : ℕ) (rows : List Note)
    → find
        (is_active user note)
        (update (is_note user note) (λ x. record x { deleted_at = some now }) rows)
      ≡ none
unfolding find update
find-marked now user note [] = refl
find-marked now user note (x ∷ rows) = ground (arith, find-marked now user note rows)

exists-marked :
    (now user note : ℕ) (rows : List Note) (x : Note)
    → find (is_active user note) rows ≡ some x
    → exists
        (is_note user note)
        (update (is_note user note) (λ x. record x { deleted_at = some now }) rows)
      ≡ true
unfolding find update exists
exists-marked now user note [] x h = cc
exists-marked now user note (y ∷ rows) x h = ground (arith, exists-marked now user note rows x)

-- The database once the note is deleted.
abbrev without : ℕ → ℕ → ℕ → Db → Db
without now user note db = record db {
  notes = update (is_note user note) (λ x. record x { deleted_at = some now }) db.notes;
  note_blobs = remove (is_blob user note) db.note_blobs;
  note_attachments = remove (in_note user note) db.note_attachments;
  attachment_chunks = remove (chunk_in_note user note) db.attachment_chunks;
}

deleted :
    (now user note : ℕ) (db db' : Db)
    → run (soft_delete_note now user note) db ≡ (ok tt, db')
    → (x : Note) × (find (is_active user note) db.notes ≡ some x) × (without now user note db ≡ db')
unfolding run soft_delete_note
deleted now user note db db' = elim (Option-cases (find (is_active user note) db.notes)) [
  | inl e ↦ rw e (λ h. cc)
  | inr (x, e) ↦ rw e (λ h. (x, refl, ap (λ (r : Result Failure (Unit {0}) × Db). r.1) h))
]

-- After `soft_delete_note` the body and the list of attachments of the note are refused with "Note not
-- found.", and no blob, no attachment and no attachment chunk of the note is left.
pub soft_delete_note_gone :
    (sha256 : List ℕ → Text) (now user_id note_id : ℕ) (db db' : Db)
    → run (soft_delete_note now user_id note_id) db ≡ (ok tt, db')
    → (run (get_note_body sha256 user_id note_id) db' ≡ (err (api_error note_not_found), db'))
      × (run (list_attachments user_id note_id) db' ≡ (err (api_error note_not_found), db'))
      × (find (is_blob user_id note_id) db'.note_blobs ≡ none)
      × (select (in_note user_id note_id) db'.note_attachments ≡ [])
      × (select (chunk_in_note user_id note_id) db'.attachment_chunks ≡ [])
unfolding run get_note_body list_attachments
soft_delete_note_gone sha256 now user note db db' h =
    let (x, active, same) = deleted now user note db db' h in
    let hidden = find-marked now user note db.notes in
    subst
      (λ d.
        ((run (get_note_body sha256 user note) d ≡ (err (api_error note_not_found), d))
          × (run (list_attachments user note) d ≡ (err (api_error note_not_found), d))
          × (find (is_blob user note) d.note_blobs ≡ none)
          × (select (in_note user note) d.note_attachments ≡ [])
          × (select (chunk_in_note user note) d.attachment_chunks ≡ [])))
      same
      (
        rw hidden refl,
        rw hidden refl,
        find-remove _ _ db.note_blobs (λ x hit. hit),
        select-remove _ _ db.note_attachments (λ x hit. hit),
        select-remove _ _ db.attachment_chunks (λ x hit. hit),
      )

-- A well-formed body without attachments, of at most `MAX_BODY_BYTES` bytes, cannot be uploaded under
-- the id of a note that was deleted: the row of the note still holds the primary key, so the request
-- ends with an uncaught `IntegrityError`, and the database is as it was.
pub put_note_body_deleted :
    (sha256 : List ℕ → Text) (now user_id note_id : ℕ) (b : ℕ) (bytes : List ℕ) (m : NoteMetadata)
    (if_match : Option Text) (db db' : Db)
    → run (soft_delete_note now user_id note_id) db ≡ (ok tt, db')
    → parse_note_blob (b ∷ bytes) ≡ ok m
    → m.note_id ≡ note_id
    → m.attachment_count ≡ 0
    → m.attachments_total_size ≡ 0
    → length (b ∷ bytes) ≤ max_body_bytes
    → run (put_note_body sha256 user_id note_id (b ∷ bytes) if_match) db'
      ≡ (err integrity_error, db')
unfolding run put_note_body persist_note_body or_validation_error validate_manifest_consistency
    store_note check_if_match etag_of
put_note_body_deleted sha256 now user note b bytes m if_match db db' h parsed id count total fits =
    let (x, active, same) = deleted now user note db db' h in
    let hidden = find-marked now user note db.notes in
    let taken = exists-marked now user note db.notes x active in
    let none_left =
      select-remove (in_note user note) (in_note user note) db.note_attachments (λ x hit. hit) in
    let small : ltb max_body_bytes (length (b ∷ bytes)) ≡ false = ground arith in
    let right : (m.note_id == note) ≡ true = ground arith in
    subst
      (λ d. run (put_note_body sha256 user note (b ∷ bytes) if_match) d ≡ (err integrity_error, d))
      same (rw (small, parsed, right, none_left, count, total, hidden, taken) refl)
