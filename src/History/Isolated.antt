-- ===== src/History/Isolated.antt =====
-- app/notes/router.py and app/notes/uploads.py: requests leave the notes alone that they do not name.
use super_secure_notes_api.Prelude.{ℕ, ◌≡◌, false, List, [], ◌∷◌}
use super_secure_notes_api.Prelude.Int.{ℤ}
use super_secure_notes_api.Prelude.Text.{Text}
use super_secure_notes_api.Db.Models.{Db}
use super_secure_notes_api.Db.Table.Laws.{All}
use super_secure_notes_api.Db.Session.{run}
use super_secure_notes_api.Db.Session.Within.{Within, Within-bind, Within-pure, Within-run}
use super_secure_notes_api.Notes.Bodies.{get_note_body}
use super_secure_notes_api.Notes.Attachments.{read_chunk, get_attachment_chunk}
use super_secure_notes_api.Notes.Isolation.{SameNote, SameNote-refl}
use super_secure_notes_api.Notes.Isolation.Actions.{
  put_note_body-Keeps, delete_attachment-Keeps, soft_delete_note-Keeps,
}
use super_secure_notes_api.Uploads.Isolation.{
  init_upload-Keeps, upload_chunk-Keeps, complete_upload-Keeps,
}
use super_secure_notes_api.History.{
  Request, put_body, get_body, delete_note, get_chunk, remove_attachment, start_upload, send_chunk,
  finish_upload, handle, serve, writes,
}
use super_secure_notes_api.Notes.Reads.{reads_rules}

-- The routes that read write nothing.
module _ (P : Db → Type 0) where
  pub get_note_body-Within :
      (sha256 : List ℕ → Text) (u n : ℕ) → Within P (get_note_body sha256 u n)
  unfolding get_note_body
  get_note_body-Within sha256 u n = search reads_rules depth 20

  pub get_attachment_chunk-Within :
      (u n att : ℕ) (i : ℤ) → Within P (get_attachment_chunk u n att i)
  unfolding get_attachment_chunk read_chunk
  get_attachment_chunk-Within u n att i = search reads_rules depth 20

module _ (sha256 : List ℕ → Text) (user' note' : ℕ) (old : Db) where
  abbrev P : Db → Type 0
  P = SameNote user' note' old

  pub handle-Keeps : (r : Request) → writes r user' note' ≡ false → Within P (handle sha256 r)
  handle-Keeps (put_body u n body if_match) other =
      let h = put_note_body-Keeps u n user' note' other old sha256 body if_match in
      search (Within-bind, Within-pure, h)
  handle-Keeps (get_body u n) other = search (Within-bind, Within-pure, get_note_body-Within)
  handle-Keeps (delete_note now u n) other =
      let h = soft_delete_note-Keeps u n user' note' other old now in
      search (Within-bind, Within-pure, h)
  handle-Keeps (get_chunk u n att i) other =
      search (Within-bind, Within-pure, get_attachment_chunk-Within)
  handle-Keeps (remove_attachment u n att) other =
      let h = delete_attachment-Keeps u n user' note' other old sha256 att in
      search (Within-bind, Within-pure, h)
  handle-Keeps (start_upload now now' new_id u n att total) other =
      search (Within-bind, Within-pure, init_upload-Keeps)
  handle-Keeps (send_chunk now now' u n att k i bytes) other =
      search (Within-bind, Within-pure, upload_chunk-Keeps)
  handle-Keeps (finish_upload now now' epoch u n att k content_type if_match) other =
      let h =
        complete_upload-Keeps user' note' old sha256 now now' epoch u n att k content_type if_match
          other in
      search (Within-bind, Within-pure, h)

  serve-Keeps :
      (requests : List Request) (db : Db)
      → All (λ r. writes r user' note' ≡ false) requests
      → P db
      → P (serve sha256 requests db).1
  serve-Keeps [] db others p = p
  serve-Keeps (r ∷ requests) db others p =
      serve-Keeps requests (run (handle sha256 r) db).1 others.1
        (Within-run P (handle sha256 r) db (handle-Keeps r others.0) p)

-- Requests that write other notes, of the same user or of others, leave a note with its row (unless it
-- is deleted), its blob, its attachments and their chunks as they were, whether they succeed or fail.
pub serve-SameNote :
    (sha256 : List ℕ → Text) (user_id note_id : ℕ) (requests : List Request) (db : Db)
    → All (λ r. writes r user_id note_id ≡ false) requests
    → SameNote user_id note_id db (serve sha256 requests db).1
serve-SameNote sha256 user note requests db others =
    serve-Keeps sha256 user note db requests db others (SameNote-refl user note db)
