-- ===== src/History/Consistent.antt =====
-- app/notes/router.py and app/notes/uploads.py: the tables of uploads after any requests.
use super_secure_notes_api.Prelude.{ℕ, ◌≡◌, refl, sym, subst, Option, List, [], ◌∷◌}
use super_secure_notes_api.Prelude.Result.{Result, ok, err}
use super_secure_notes_api.Prelude.Text.{Text}
use super_secure_notes_api.Db.Models.{Db, empty_db}
use super_secure_notes_api.Db.Session.{
  Action, Session, Failure, modify, pure, continue, ◌>>=◌, open_session, run,
}
use super_secure_notes_api.Db.Session.Within.{Within, Within-bind, Within-commit, Within-run}
use super_secure_notes_api.Notes.Frame.{Spares, spares_rules}
use super_secure_notes_api.Notes.Bodies.{put_note_body, persist_note_body, soft_delete_note}
use super_secure_notes_api.Notes.Attachments.{delete_attachment}
use super_secure_notes_api.Uploads.Invariant.{IsConsistent}
use super_secure_notes_api.Uploads.Requests.{
  transfer, init_upload-IsConsistent, upload_chunk-IsConsistent, complete_upload-IsConsistent,
}
use super_secure_notes_api.History.Isolated.{get_note_body-Within, get_attachment_chunk-Within}
use super_secure_notes_api.History.{
  Request, put_body, get_body, delete_note, get_chunk, remove_attachment, start_upload, send_chunk,
  finish_upload, handle, serve,
}

W-Spares : {A : Type 0} (m : Action A) → Spares m → Within IsConsistent m
W-Spares m h = record {
  after = λ s c p.
      let same = h.after s in
      (
        subst IsConsistent (sym same.committed) c,
        transfer s.pending (m s).1.pending same.sessions same.chunks p,
      );
}

Spares-modify :
    (f : Db → Db)
    → ((db : Db) → (f db).upload_sessions ≡ db.upload_sessions)
    → ((db : Db) → (f db).upload_chunks ≡ db.upload_chunks)
    → Spares (modify f)
Spares-modify f hs hc = record {
  after = λ s. record { committed = refl; sessions = hs s.pending; chunks = hc s.pending };
}

module _ (sha256 : List ℕ → Text) where
  W-put_note_body :
      (u n : ℕ) (body : List ℕ) (if_match : Option Text)
      → Within IsConsistent (put_note_body sha256 u n body if_match)
  unfolding put_note_body persist_note_body
  W-put_note_body u n body if_match =
      search (Within-bind, Within-commit, W-Spares, spares_rules) depth 30

  W-delete_attachment : (u n att : ℕ) → Within IsConsistent (delete_attachment sha256 u n att)
  unfolding delete_attachment
  W-delete_attachment u n att =
      search (Within-bind, Within-commit, W-Spares, spares_rules, Spares-modify, refl) depth 30

  W-soft_delete_note : (now u n : ℕ) → Within IsConsistent (soft_delete_note now u n)
  unfolding soft_delete_note
  W-soft_delete_note now u n =
      search (Within-bind, Within-commit, W-Spares, spares_rules, Spares-modify, refl) depth 30

-- What a handler does with a reply leaves the tables alone.
continue-pure :
    {A B : Type 0} (r : Result Failure A) (f : A → B) (s : Session)
    → (continue r (λ a. pure (f a)) s).1 ≡ s
continue-pure (ok a) f s = refl
continue-pure (err e) f s = refl

replied :
    {A B : Type 0} (m : Action A) (f : A → B) (db : Db)
    → IsConsistent (run m db).1
    → IsConsistent (run (m >>= λ a. pure (f a)) db).1
unfolding run
replied m f db v =
    subst (λ (s : Session). IsConsistent s.committed)
      (sym (continue-pure (m (open_session db)).0 f (m (open_session db)).1)) v

handle-IsConsistent :
    (sha256 : List ℕ → Text) (r : Request) (db : Db)
    → IsConsistent db
    → IsConsistent (run (handle sha256 r) db).1
handle-IsConsistent sha256 (put_body u n body if_match) db v =
    replied _ _ db (Within-run IsConsistent _ db (W-put_note_body sha256 u n body if_match) v)
handle-IsConsistent sha256 (get_body u n) db v =
    replied _ _ db (Within-run IsConsistent _ db (get_note_body-Within IsConsistent sha256 u n) v)
handle-IsConsistent sha256 (delete_note now u n) db v =
    replied _ _ db (Within-run IsConsistent _ db (W-soft_delete_note sha256 now u n) v)
handle-IsConsistent sha256 (get_chunk u n att i) db v =
    replied _ _ db
      (Within-run IsConsistent _ db (get_attachment_chunk-Within IsConsistent u n att i) v)
handle-IsConsistent sha256 (remove_attachment u n att) db v =
    replied _ _ db (Within-run IsConsistent _ db (W-delete_attachment sha256 u n att) v)
handle-IsConsistent sha256 (start_upload now now' new_id u n att total) db v =
    replied _ _ db (init_upload-IsConsistent now now' new_id u n att total db v)
handle-IsConsistent sha256 (send_chunk now now' u n att k i bytes) db v =
    replied _ _ db (upload_chunk-IsConsistent now now' u n att k i bytes db v)
handle-IsConsistent sha256 (finish_upload now now' epoch u n att k content_type if_match) db v =
    replied _ _ db
      (complete_upload-IsConsistent sha256 now now' epoch u n att k content_type if_match db v)

pub empty_db-IsConsistent : IsConsistent empty_db
empty_db-IsConsistent = record { ids = tt; owned = tt; sessions = tt }

-- The tables of uploads are consistent after any requests on a database in which they are.
pub serve-IsConsistent :
    (sha256 : List ℕ → Text) (requests : List Request) (db : Db)
    → IsConsistent db
    → IsConsistent (serve sha256 requests db).1
serve-IsConsistent sha256 [] db v = v
serve-IsConsistent sha256 (r ∷ requests) db v =
    serve-IsConsistent sha256 requests _ (handle-IsConsistent sha256 r db v)
