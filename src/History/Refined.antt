-- ===== src/History/Refined.antt =====
-- app/notes/router.py: the requests keep to the specification of note bodies.
use super_secure_notes_api.Prelude.{
  ℕ, ◌≡◌, refl, sym, ap, ◌∙◌, false, ◌&&◌, Option, none, some, List, [], ◌∷◌, ◌==◌, Option-cases,
  inl, inr, arith, Bool-cases,
}
use super_secure_notes_api.Prelude.Result.{Result, ok, err}
use super_secure_notes_api.Prelude.Text.{Text}
use super_secure_notes_api.Db.Models.{Db}
use super_secure_notes_api.Db.Table.{find}
use super_secure_notes_api.Db.Session.{
  Action, Session, Failure, pure, continue, ◌>>=◌, open_session, run,
}
use super_secure_notes_api.Db.Session.Within.{Within, Within-bind, Within-pure, Within-run}
use super_secure_notes_api.Notes.Schemas.{NoteUploadResponse}
use super_secure_notes_api.Notes.Queries.{is_active}
use super_secure_notes_api.Notes.Bodies.{put_note_body, soft_delete_note}
use super_secure_notes_api.Notes.Bodies.Rollback.{put_note_body_failed}
use super_secure_notes_api.Notes.Bodies.Served.{put_note_body-Served}
use super_secure_notes_api.Notes.Bodies.Deleted.{soft_delete_note_gone}
use super_secure_notes_api.Notes.Isolation.{SameNote, SameNote-refl}
use super_secure_notes_api.History.{
  Request, Reply, empty_reply, note_reply, put_body, get_body, delete_note, get_chunk,
  remove_attachment, start_upload, send_chunk, finish_upload, handle, serve,
}
use super_secure_notes_api.Notes.Isolation.Actions.{put_note_body-Keeps, soft_delete_note-Keeps}
use super_secure_notes_api.Uploads.Blind.{
  init_upload-Within, upload_chunk-Within, complete_upload-Within,
}
use super_secure_notes_api.History.Bodies.{
  Unchanged, set_body, Allowed, Trace, bodies_of, SameNote-bodies, get-Answers, read_body, no_body,
}
use super_secure_notes_api.History.Isolated.{get_note_body-Within, get_attachment_chunk-Within}
use super_secure_notes_api.History.Kept.{W-delete_attachment, W-finalize}

-- A handler's reply is made from that of the operation it calls.
reply_cases :
    (Q : Result Failure Reply → Db → Type 0) {A : Type 0} (m : Action A) (f : A → Reply) (db : Db)
    → ((a : A) (db' : Db) → run m db ≡ (ok a, db') → Q (ok (f a)) db')
    → ((e : Failure) (db' : Db) → run m db ≡ (err e, db') → Q (err e) db')
    → Q (run (m >>= λ a. pure (f a)) db).0 (run (m >>= λ a. pure (f a)) db).1
unfolding run
reply_cases Q {A} m f db h k = cases (m (open_session db)).0 (m (open_session db)).1 h k
  where
    cases :
        (r : Result Failure A) (s : Session)
        → ((a : A) (db' : Db)
            → ◌≡◌ {A = Result Failure A × Db} (r, s.committed) (ok a, db')
            → Q (ok (f a)) db')
        → ((e : Failure) (db' : Db)
            → ◌≡◌ {A = Result Failure A × Db} (r, s.committed) (err e, db')
            → Q (err e) db')
        → Q (continue r (λ a. pure (f a)) s).0 (continue r (λ a. pure (f a)) s).1.committed
    cases (ok a) s h k = h a s.committed refl
    cases (err e) s h k = k e s.committed refl

soft_delete_note_failed :
    (now u n : ℕ) (db db' : Db) (e : Failure)
    → run (soft_delete_note now u n) db ≡ (err e, db')
    → db' ≡ db
unfolding run soft_delete_note
soft_delete_note_failed now u n db db' e = elim (Option-cases (find (is_active u n) db.notes)) [
  | inl absent ↦ rw absent (λ h. sym (ap (λ (r : Result Failure (Unit {0}) × Db). r.1) h))
  | inr (x, active) ↦ rw active (λ h. cc)
]

bodies-same : (db db' : Db) → db' ≡ db → Unchanged (bodies_of db) (bodies_of db')
bodies-same db db' e u n = ap (λ d. bodies_of d u n) e

module _ (sha256 : List ℕ → Text) where
  -- A handler that keeps every note's body.
  unchanged :
      (r : Request) (db : Db)
      → ((u n : ℕ) → Within (λ d. bodies_of d u n ≡ bodies_of db u n) (handle sha256 r))
      → Unchanged (bodies_of db) (bodies_of (run (handle sha256 r) db).1)
  unchanged r db h u n = Within-run _ (handle sha256 r) db (h u n) refl

  others :
      {A : Type 0} (u n : ℕ) (m : Action A) (db db' : Db) (r : Result Failure A)
      → ((u' n' : ℕ) → (u' == u && n' == n) ≡ false → Within (SameNote u' n' db) m)
      → run m db ≡ (r, db')
      → (u' n' : ℕ) → (u' == u && n' == n) ≡ false
      → bodies_of db' u' n' ≡ bodies_of db u' n'
  others u n m db db' r keeps e u' n' ne =
      ap (λ (x : Result Failure _ × Db). bodies_of x.1 u' n') (sym e)
      ∙ SameNote-bodies u' n' db (run m db).1
          (Within-run (SameNote u' n' db) m db (keeps u' n' ne) (SameNote-refl u' n' db))

  -- The body of one note is set, and those of the others stay.
  sets :
      (u n : ℕ) (o : Option (List ℕ)) (db db' : Db)
      → bodies_of db' u n ≡ o
      → ((u' n' : ℕ) → (u' == u && n' == n) ≡ false → bodies_of db' u' n' ≡ bodies_of db u' n')
      → Unchanged (set_body u n o (bodies_of db)) (bodies_of db')
  sets u n o db db' here rest u' n' = elim (Bool-cases (u' == u && n' == n)) [
    | inl same ↦
        let at : (u' ≡ u) × (n' ≡ n) = ground (arith, same) in
        rw (same, set_body) (ap (λ k. bodies_of db' k n') at.0 ∙ ap (bodies_of db' u) at.1 ∙ here)
    | inr other ↦ rw (other, set_body) (rest u' n' other)
  ]

  -- Each request keeps to the specification.
  handle-Allowed :
      (r : Request) (db : Db)
      → Allowed sha256
          (bodies_of db)
          r
          (run (handle sha256 r) db).0
          (bodies_of (run (handle sha256 r) db).1)
  handle-Allowed (put_body u n body if_match) db =
      reply_cases
        (λ a d. Allowed sha256 (bodies_of db) (put_body u n body if_match) a (bodies_of d))
        (put_note_body sha256 u n body if_match) note_reply db
        (λ r db' h.
          sets u n (some body) db db'
            (read_body sha256 u n db' _
              (put_note_body-Served sha256 u n body if_match db db' r h).read_back)
            (others u n (put_note_body sha256 u n body if_match) db db' (ok r)
              (λ u' n' ne. put_note_body-Keeps u n u' n' ne db sha256 body if_match) h))
        (λ e db' h. bodies-same db db' (
          ap (λ (x : Result Failure NoteUploadResponse × Db). x.1) (sym h)
          ∙ put_note_body_failed sha256 u n body if_match db e
              (ap (λ (x : Result Failure NoteUploadResponse × Db). x.0) h)))
  handle-Allowed (get_body u n) db = (
    unchanged (get_body u n) db (λ u' n'. search (Within-bind, Within-pure, get_note_body-Within)),
    get-Answers sha256 u n db,
  )
  handle-Allowed (delete_note now u n) db =
      reply_cases (λ a d. Allowed sha256 (bodies_of db) (delete_note now u n) a (bodies_of d))
        (soft_delete_note now u n) (λ _. empty_reply) db
        (λ r db' h.
          sets u n none db db'
            (no_body sha256 u n db' (soft_delete_note_gone sha256 now u n db db' h).0)
            (others u n (soft_delete_note now u n) db db' (ok r)
              (λ u' n' ne. soft_delete_note-Keeps u n u' n' ne db now) h))
        (λ e db' h. bodies-same db db' (soft_delete_note_failed now u n db db' e h))
  handle-Allowed (get_chunk u n att i) db =
      unchanged (get_chunk u n att i) db
        (λ u' n'. search (Within-bind, Within-pure, get_attachment_chunk-Within))
  handle-Allowed (remove_attachment u n att) db = unchanged (remove_attachment u n att) db (λ u' n'.
      Within-bind _ _ _ (W-delete_attachment u' n' db sha256 u n att) (λ a. Within-pure _ _))
  handle-Allowed (start_upload now now' new_id u n att total) db =
      unchanged (start_upload now now' new_id u n att total) db (λ u' n'.
        Within-bind _ _ _ (init_upload-Within _ (λ d s c h. h) now now' new_id u n att total)
          (λ a. Within-pure _ _))
  handle-Allowed (send_chunk now now' u n att k i bytes) db =
      unchanged (send_chunk now now' u n att k i bytes) db (λ u' n'.
        Within-bind _ _ _ (upload_chunk-Within _ (λ d s c h. h) now now' u n att k i bytes)
          (λ a. Within-pure _ _))
  handle-Allowed (finish_upload now now' epoch u n att k content_type if_match) db =
      unchanged (finish_upload now now' epoch u n att k content_type if_match) db (λ u' n'.
        Within-bind _ _ _
          (complete_upload-Within _ (λ d s c h. h) sha256 now now' epoch u n att k content_type
            if_match
            (λ total. W-finalize u' n' db sha256 epoch u n att k total content_type if_match))
          (λ a. Within-pure _ _))

-- The requests of a history keep to the specification of the bodies, on every database: a body that was
-- put is what the next download answers, until another is put or the note is deleted; after a deletion
-- there is none; no other request, and no request that fails, changes a body; and a download of a note
-- without a body is refused with "Note not found." or "Note body not found.".
pub serve-Trace :
    (sha256 : List ℕ → Text) (requests : List Request) (db : Db)
    → Trace sha256
        (bodies_of db)
        requests
        (serve sha256 requests db).0
        (bodies_of (serve sha256 requests db).1)
serve-Trace sha256 [] db = λ u n. refl
serve-Trace sha256 (r ∷ requests) db = (
  bodies_of (run (handle sha256 r) db).1,
  handle-Allowed sha256 r db,
  serve-Trace sha256 requests (run (handle sha256 r) db).1,
)
