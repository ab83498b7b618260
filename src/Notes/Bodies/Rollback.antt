-- ===== src/Notes/Bodies/Rollback.antt =====
-- app/notes/service.py and app/notes/router.py: an upload of a note's body that fails.
use super_secure_notes_api.Prelude.{ℕ, ◌≡◌, Option, List}
use super_secure_notes_api.Prelude.Result.{err}
use super_secure_notes_api.Prelude.Text.{Text}
use super_secure_notes_api.Db.Models.{Db}
use super_secure_notes_api.Db.Session.{Failure, run}
use super_secure_notes_api.Notes.Frame.{
  FailsClean, FailsClean-bind, FailsClean-commit, FailsClean-run, spares_rules,
}
use super_secure_notes_api.Notes.Bodies.{persist_note_body, put_note_body}

FailsClean-persist :
    (sha256 : List ℕ → Text) (user_id note_id : ℕ) (body : List ℕ) (if_match : Option Text)
    → FailsClean (persist_note_body sha256 user_id note_id body if_match)
unfolding persist_note_body
FailsClean-persist sha256 user note body if_match =
    search (FailsClean-bind, FailsClean-commit, spares_rules) depth 40

-- When `put_note_body` fails, at whatever step, the database is as it was.
pub put_note_body_failed :
    (sha256 : List ℕ → Text) (user_id note_id : ℕ) (body : List ℕ) (if_match : Option Text)
    (db : Db) (e : Failure)
    → (run (put_note_body sha256 user_id note_id body if_match) db).0 ≡ err e
    → (run (put_note_body sha256 user_id note_id body if_match) db).1 ≡ db
unfolding put_note_body
put_note_body_failed sha256 user note body if_match db e failed =
    FailsClean-run _ db (search (FailsClean-bind, FailsClean-persist, spares_rules)) e failed
