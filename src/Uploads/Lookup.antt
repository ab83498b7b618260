-- ===== src/Uploads/Lookup.antt =====
-- app/notes/uploads.py: what `_get_upload_session` hands to the handlers that call it.
use super_secure_notes_api.Prelude.{
  ℕ, ◌≤◌, ◌≡◌, true, some, arith, ltb, Bool-cases, Option-cases, inl, inr,
}
use super_secure_notes_api.Prelude.Result.{Result, err}
use super_secure_notes_api.Db.Models.{UploadSession, Db}
use super_secure_notes_api.Db.Table.{select, find}
use super_secure_notes_api.Db.Session.{Session, Action, Failure, open_session, ◌>>=◌}
use super_secure_notes_api.Uploads.{
  is_in_progress, is_expired, is_session, abort_sessions, get_upload_session, check_upload_session,
}
use super_secure_notes_api.Uploads.Invariant.{
  IsConsistent, abort_session-IsConsistent, abort_sessions-IsConsistent,
}

-- The database once the expired sessions of the user are aborted.
abbrev pub cleaned : ℕ → ℕ → Db → Db
cleaned now user_id db = abort_sessions (select (is_expired now user_id) db.upload_sessions) db

pub cleaned-IsConsistent :
    (now user_id : ℕ) (db : Db) → IsConsistent db → IsConsistent (cleaned now user_id db)
cleaned-IsConsistent now user_id db v =
    abort_sessions-IsConsistent (select (is_expired now user_id) db.upload_sessions) db v

-- The caller goes on from a committed, consistent database with a session in progress that has not
-- expired, or fails with one.
pub upload_session_cases :
    {B : Type 0} (P : Result Failure B × Session → Type 0) (k : UploadSession → Action B)
    (now now' user_id note_id attachment_id upload_id : ℕ) (db : Db)
    → IsConsistent db
    → ((e : Failure) (db' : Db) → IsConsistent db' → P (err e, open_session db'))
    → ((session : UploadSession)
        → find
            (is_session user_id note_id attachment_id upload_id)
            (cleaned now user_id db).upload_sessions
          ≡ some session
        → is_in_progress session.status ≡ true
        → now' ≤ session.expires_at
        → P (k session (open_session (cleaned now user_id db))))
    → P (
        (get_upload_session now now' user_id note_id attachment_id upload_id >>= k)
          (open_session db))
unfolding get_upload_session check_upload_session
upload_session_cases P k now now' user note att id db v failed found =
    let db' = cleaned now user db in
    let v' = cleaned-IsConsistent now user db v in
    elim (Option-cases (find (is_session user note att id) db'.upload_sessions)) [
      | inl e ↦ rw e (failed _ db' v')
      | inr (session, e) ↦ rw e (elim (Bool-cases (ltb session.expires_at now')) [
        | inl late ↦ rw late (failed _ _ (abort_session-IsConsistent session db' v'))
        | inr open_ ↦ rw open_ (elim (Bool-cases (is_in_progress session.status)) [
          | inl live ↦ rw live (found session e live (ground arith))
          | inr done ↦ rw done (failed _ db' v')
        ])
      ])
    ]
