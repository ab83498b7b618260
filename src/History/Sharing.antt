-- ===== src/History/Sharing.antt =====
-- app/shares/router.py: the requests that write shares, among the others, on one database.
pub mod Kept
pub mod Steps
pub mod Valid
use super_secure_notes_api.Prelude.{ℕ, Option, List, [], ◌∷◌}
use super_secure_notes_api.Prelude.Text.{Text}
use super_secure_notes_api.Db.Models.{Db}
use super_secure_notes_api.Db.Session.{run}
use super_secure_notes_api.Shares.{share_note, revoke_share, remove_shared_note}
use super_secure_notes_api.History.{Request, handle}

pub data AnyRequest : Type 0 where
  on_note : Request → AnyRequest
  share : (shared_at new_id user_id note_id : ℕ) (recipient_email wrapped_fek : Text) → AnyRequest
  revoke : (user_id note_id : ℕ) (recipient_email : Text) → AnyRequest
  leave : (user_id note_id : ℕ) → AnyRequest

module _ (sha256 : List ℕ → Text) (sql_lower lower : Text → Text)
    (b64decode : Text → Option (List ℕ)) where
  -- The database after a request.
  abbrev pub after : AnyRequest → Db → Db
  after (on_note r) db = (run (handle sha256 r) db).1
  after (share shared_at new_id user_id note_id recipient_email wrapped_fek) db =
      (run
        (share_note sql_lower lower b64decode shared_at new_id user_id note_id recipient_email
          wrapped_fek)
        db).1
  after (revoke user_id note_id recipient_email) db =
      (run (revoke_share sql_lower lower user_id note_id recipient_email) db).1
  after (leave user_id note_id) db = (run (remove_shared_note user_id note_id) db).1

  abbrev pub after_all : List AnyRequest → Db → Db
  after_all [] db = db
  after_all (r ∷ requests) db = after_all requests (after r db)
