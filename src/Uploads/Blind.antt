-- ===== src/Uploads/Blind.antt =====
-- app/notes/uploads.py: what does not read the tables of uploads is kept by the requests
-- of uploads, but for the attachment that `complete_upload` adds.
use super_secure_notes_api.Prelude.{ℕ, Option, none, some, List, [], ◌∷◌, Bool-cases, inl, inr, ltb}
use super_secure_notes_api.Prelude.Int.{ℤ}
use super_secure_notes_api.Prelude.Text.{Text}
use super_secure_notes_api.Db.Models.{UploadSession, UploadChunk, Db}
use super_secure_notes_api.Db.Table.{remove}
use super_secure_notes_api.Db.Session.Within.{
  Within, Within-bind, Within-pure, Within-raise_if, Within-raise, Within-lift, Within-query,
  Within-commit, Within-modify,
}
use super_secure_notes_api.Notes.Queries.{in_upload}
use super_secure_notes_api.Notes.Attachments.{finalize_chunked_upload}
use super_secure_notes_api.Uploads.{
  has_id, abort_session, abort_sessions, cleanup_expired_sessions, abort_in_progress_sessions,
  check_upload_session, get_upload_session, add_session, init_upload, store_chunk, upload_chunk,
  check_complete, complete_upload,
}
use super_secure_notes_api.Notes.Reads.{reads_rules}

-- `P` does not read the tables of uploads.
module _ (P : Db → Type 0)
    (blind : (db : Db) (sessions : List UploadSession) (chunks : List UploadChunk)
      → P db
      → P (record db { upload_sessions = sessions; upload_chunks = chunks })) where
  Keeps-sessions :
      (rows : Db → List UploadSession) (db : Db)
      → P db
      → P (record db { upload_sessions = rows db })
  Keeps-sessions rows db p = blind db (rows db) db.upload_chunks p

  Keeps-chunks :
      (rows : Db → List UploadChunk) (db : Db) → P db → P (record db { upload_chunks = rows db })
  Keeps-chunks rows db p = blind db db.upload_sessions (rows db) p

  Keeps-abort_session : (session : UploadSession) (db : Db) → P db → P (abort_session session db)
  unfolding abort_session
  Keeps-abort_session session db p = blind db _ _ p

  Keeps-abort_sessions :
      (sessions : List UploadSession) (db : Db) → P db → P (abort_sessions sessions db)
  unfolding abort_sessions
  Keeps-abort_sessions [] db p = p
  Keeps-abort_sessions (x ∷ sessions) db p =
      Keeps-abort_sessions sessions (abort_session x db) (Keeps-abort_session x db p)

  W-cleanup : (now user : ℕ) → Within P (cleanup_expired_sessions now user)
  unfolding cleanup_expired_sessions
  W-cleanup now user =
      search (Within-bind, Within-query, Within-modify, Keeps-abort_sessions, Within-commit)

  W-abort : (user note att : ℕ) → Within P (abort_in_progress_sessions user note att)
  unfolding abort_in_progress_sessions
  W-abort user note att = search (Within-bind, Within-query, Within-modify, Keeps-abort_sessions)

  W-check : (now : ℕ) (session : UploadSession) → Within P (check_upload_session now session)
  unfolding check_upload_session
  W-check now session = elim (Bool-cases (ltb session.expires_at now)) [
    | inl over ↦
        rw over
          (search (Within-bind, Within-modify, Keeps-abort_session, Within-commit, Within-raise))
    | inr live ↦ rw live (search (Within-bind, Within-raise_if, Within-pure))
  ]

  W-get_upload_session :
      (now now' user note att k : ℕ) → Within P (get_upload_session now now' user note att k)
  unfolding get_upload_session
  W-get_upload_session now now' user note att k =
      search (Within-bind, Within-query, W-cleanup, reads_rules, W-check) depth 10

  W-add_session : (x : UploadSession) → Within P (add_session x)
  unfolding add_session
  W-add_session x =
      let added = Keeps-sessions (λ db. x ∷ db.upload_sessions) in
      search (Within-bind, Within-query, Within-raise_if, Within-modify, added)

  pub init_upload-Within :
      (now now' new_id user note att total : ℕ)
      → Within P (init_upload now now' new_id user note att total)
  unfolding init_upload
  init_upload-Within now now' new_id user note att total =
      search
        (Within-bind, reads_rules, W-cleanup, W-abort, W-add_session, Within-commit, Within-pure)
        depth 20

  W-store_chunk :
      (k : ℕ) (i : ℤ) (bytes : List ℕ) (o : Option UploadChunk) → Within P (store_chunk k i bytes o)
  unfolding store_chunk
  W-store_chunk k i bytes none = record { after = λ s c p. (c, blind s.pending _ _ p) }
  W-store_chunk k i bytes (some x) = record { after = λ s c p. (c, blind s.pending _ _ p) }

  pub upload_chunk-Within :
      (now now' user note att k : ℕ) (i : ℤ) (bytes : List ℕ)
      → Within P (upload_chunk now now' user note att k i bytes)
  unfolding upload_chunk
  upload_chunk-Within now now' user note att k i bytes =
      search
        (
          Within-bind, W-get_upload_session, Within-lift, Within-raise_if, Within-query,
          W-store_chunk, Within-commit,
        )
        depth 20

  W-check_complete :
      (session : UploadSession) (chunks : List UploadChunk)
      → Within P (check_complete session chunks)
  unfolding check_complete
  W-check_complete session chunks = search (Within-bind, Within-raise_if)

  pub complete_upload-Within :
      (sha256 : List ℕ → Text) (now now' epoch user note att k : ℕ)
      (content_type if_match : Option Text)
      → ((total : ℕ)
          → Within P
              (finalize_chunked_upload sha256 epoch user note att k total content_type if_match))
      → Within P (complete_upload sha256 now now' epoch user note att k content_type if_match)
  unfolding complete_upload
  complete_upload-Within sha256 now now' epoch user note att k content_type if_match finalize =
      search
        (
          reads_rules,
          W-get_upload_session,
          Within-query,
          W-check_complete,
          finalize,
          Within-modify,
          (Keeps-chunks (λ db. remove (in_upload k) db.upload_chunks)),
          (Keeps-sessions (λ db. remove (has_id k) db.upload_sessions)),
        )
        depth 20
