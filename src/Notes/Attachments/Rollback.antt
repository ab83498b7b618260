-- ===== src/Notes/Attachments/Rollback.antt =====
-- app/notes/service.py: a deletion of an attachment that fails.
use super_secure_notes_api.Prelude.{ℕ, ◌≡◌, List, arith}
use super_secure_notes_api.Prelude.Result.{err}
use super_secure_notes_api.Prelude.Text.{Text}
use super_secure_notes_api.Db.Models.{Db}
use super_secure_notes_api.Db.Session.{Failure, run, modify}
use super_secure_notes_api.Db.Table.{remove}
use super_secure_notes_api.Notes.Queries.{is_attachment, chunk_of}
use super_secure_notes_api.Notes.Frame.{
  FailsClean-bind, FailsClean-commit_last, FailsClean-run, Spares, spares_rules,
}
use super_secure_notes_api.Notes.Attachments.{delete_attachment}

Spares-remove_attachment :
    (user note att : ℕ)
    → Spares (
        modify λ db. record db {
          note_attachments = remove (is_attachment user note att) db.note_attachments;
          attachment_chunks = remove (chunk_of user note att) db.attachment_chunks;
        })
Spares-remove_attachment user note att = record { after = λ s. ground arith }

-- When `delete_attachment` fails, also at the recomputation after the row is deleted, the database is
-- as it was.
pub delete_attachment_failed :
    (sha256 : List ℕ → Text) (user_id note_id attachment_id : ℕ) (db : Db) (e : Failure)
    → (run (delete_attachment sha256 user_id note_id attachment_id) db).0 ≡ err e
    → (run (delete_attachment sha256 user_id note_id attachment_id) db).1 ≡ db
unfolding delete_attachment
delete_attachment_failed sha256 user note att db e failed =
    FailsClean-run _ db
      (search (FailsClean-bind, FailsClean-commit_last, Spares-remove_attachment, spares_rules)
        depth 20)
      e failed
