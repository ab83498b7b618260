-- ===== src/Uploads/Requests.antt =====
-- app/notes/uploads.py: the requests on uploads and the consistency of the tables.
use super_secure_notes_api.Prelude.{
  ℕ, ◌<◌, ◌≡◌, refl, subst, ap, sym, ◌∙◌, true, ◌&&◌, Option, some, List, arith, ◌==◌, ==→eq,
  length, Bool-cases, Option-cases, inl, inr, ◌⊎◌,
}
use super_secure_notes_api.Prelude.Int.{ℤ, pos}
use super_secure_notes_api.Prelude.Result.{Result, ok, err}
use super_secure_notes_api.Prelude.Text.{Text}
use super_secure_notes_api.Errors.{ApiError, validation_error}
use super_secure_notes_api.Db.Models.{UploadSession, UploadChunk, Db}
use super_secure_notes_api.Db.Table.{select, find, exists}
use super_secure_notes_api.Db.Table.Laws.{All, All-map, find-All, find-none, exists_of_find}
use super_secure_notes_api.Db.Session.{
  Session, Action, Failure, api_error, open_session, run, ◌>>◌, commit, continue,
}
use super_secure_notes_api.Notes.ChunkSize.{total_chunks_for_size, expected_chunk_size}
use super_secure_notes_api.Notes.ChunkSize.Sums.{chunk_len, expected_chunk_size-eq, expected_cases}
use super_secure_notes_api.Notes.Queries.{in_upload, has_index, is_active, upload_chunks_of}
use super_secure_notes_api.Notes.Attachments.{finalize_chunked_upload}
use super_secure_notes_api.Db.Table.Order.{Distinct}
use mathlib.Core.Path.{subst₂}
use super_secure_notes_api.Uploads.{
  is_in_progress, has_id, is_live, is_session, abort_sessions, store_chunk, upload_chunk,
  init_upload, check_complete, complete_upload, total_bytes,
}
use super_secure_notes_api.Uploads.Invariant.{
  Received, SessionOk, IsConsistent, abort_sessions-IsConsistent,
}
use super_secure_notes_api.Notes.Frame.{SameUploads, Spares-finalize}
use super_secure_notes_api.Uploads.Lookup.{cleaned, cleaned-IsConsistent, upload_session_cases}
use super_secure_notes_api.Uploads.Steps.{
  same_session, add_session-IsConsistent, new_chunk-IsConsistent, same_chunk-IsConsistent,
  removed-IsConsistent,
}

-- `init_upload` keeps the tables of uploads consistent.
pub init_upload-IsConsistent :
    (now now' new_id user_id note_id attachment_id total_size : ℕ) (db : Db)
    → IsConsistent db
    → IsConsistent (run (init_upload now now' new_id user_id note_id attachment_id total_size) db).1
unfolding run init_upload
init_upload-IsConsistent now now' new_id user note att total db v =
    elim (Option-cases (find (is_active user note) db.notes)) [
      | inl e ↦ rw (e, run) v
      | inr (x, e) ↦
          rw (e, run)
            (elim (Bool-cases (exists (has_id new_id) db₂.upload_sessions)) [
              | inl taken ↦ rw taken v₁
              | inr fresh ↦ rw fresh (add_session-IsConsistent db₂ _ fresh refl refl refl v₂)
            ])
    ]
  where
    db₁ : Db
    db₁ = cleaned now user db

    v₁ : IsConsistent db₁
    v₁ = cleaned-IsConsistent now user db v

    db₂ : Db
    db₂ = abort_sessions (select (is_live user note att) db₁.upload_sessions) db₁

    v₂ : IsConsistent db₂
    v₂ = abort_sessions-IsConsistent (select (is_live user note att) db₁.upload_sessions) db₁ v₁

-- The session in progress that a request found has received what it counts.
pub found-Received :
    (db : Db) (user note att k : ℕ) (session : UploadSession)
    → IsConsistent db
    → find (is_session user note att k) db.upload_sessions ≡ some session
    → is_in_progress session.status ≡ true
    → Received (select (in_upload k) db.upload_chunks) session
found-Received db user note att k session v found live =
    let id = (same_session db user note att k session v found).0 in
    subst (λ j. Received (select (in_upload j) db.upload_chunks) session) id
      (find-All (SessionOk db.upload_chunks) (is_session user note att k) db.upload_sessions session
        v.sessions found live)

-- The size that is expected of a chunk, once the session is known to be consistent.
pub expected_size_cases :
    (db : Db) (user note att k : ℕ) (session : UploadSession) (chunk_index : ℤ)
    → Received (select (in_upload k) db.upload_chunks) session
    → ((i : ℕ) × (chunk_index ≡ pos i)
        × (i < total_chunks_for_size session.total_size)
        × (expected_chunk_size session chunk_index ≡ ok (chunk_len session.total_size i)))
      ⊎ ((e : ApiError) × (expected_chunk_size session chunk_index ≡ err e))
expected_size_cases db user note att k session chunk_index r =
    let same = expected_chunk_size-eq session chunk_index r.chunk_size r.expected in
    elim (expected_cases session.total_size chunk_index) [
      | inl (i, at, lt, size) ↦ inl (i, at, lt, same ∙ size)
      | inr bad ↦ inr (_, same ∙ bad)
    ]

-- The write of a chunk of the right size.
store_chunk-IsConsistent :
    (db : Db) (user note att k i : ℕ) (session : UploadSession) (content : List ℕ)
    → IsConsistent db
    → find (is_session user note att k) db.upload_sessions ≡ some session
    → i < total_chunks_for_size session.total_size
    → length content ≡ chunk_len session.total_size i
    → IsConsistent
        ((store_chunk k
              (pos i)
              content
              (find (λ x. in_upload k x && has_index (pos i) x.chunk_index) db.upload_chunks)
            >> commit)
          (open_session db)).1.committed
unfolding store_chunk
store_chunk-IsConsistent db user note att k i session content v found lt len =
    let (id, only) = same_session db user note att k session v found in
    elim (Option-cases (
      find (λ (x : UploadChunk). in_upload k x && has_index (pos i) x.chunk_index)
        db.upload_chunks)) [
          | inl e ↦ rw e (
              new_chunk-IsConsistent db session _ only
                (exists_of_find (is_session user note att k) (has_id k) db.upload_sessions session
                  found (ground arith))
                (lt, len)
                (All-map _ _ (select (in_upload k) db.upload_chunks) (λ y miss same. ground arith)
                  (find-none (in_upload k) (λ y. has_index (pos i) y.chunk_index) db.upload_chunks
                    e))
                v)
          | inr (c, e) ↦ rw e (same_chunk-IsConsistent db session k i content only len v)
        ]

-- `upload_chunk` keeps the tables of uploads consistent.
pub upload_chunk-IsConsistent :
    (now now' user_id note_id attachment_id upload_id : ℕ) (chunk_index : ℤ) (content : List ℕ)
    (db : Db)
    → IsConsistent db
    → IsConsistent
        (run
          (upload_chunk now now' user_id note_id attachment_id upload_id chunk_index content)
          db).1
unfolding run upload_chunk
upload_chunk-IsConsistent now now' user note att k chunk_index content db v =
    upload_session_cases (λ x. IsConsistent x.1.committed) _ now now' user note att k db v
      (λ e db' v'. v')
      λ session found live _.
        let db₁ = cleaned now user db in
        let v₁ = cleaned-IsConsistent now user db v in
        let r = found-Received db₁ user note att k session v₁ found live in
        elim (expected_size_cases db₁ user note att k session chunk_index r) [
          | inr (e, bad) ↦ rw bad v₁
          | inl (i, at, lt, size) ↦
              rw size (elim (Bool-cases (length content == chunk_len session.total_size i)) [
                | inr wrong ↦ rw wrong v₁
                | inl right ↦
                    rw (right, at)
                      (store_chunk-IsConsistent db₁ user note att k i session content v₁ found lt
                        (==→eq _ _ right))
              ])
        ]

-- Only the two tables of uploads matter.
pub transfer :
    (a b : Db)
    → b.upload_sessions ≡ a.upload_sessions
    → b.upload_chunks ≡ a.upload_chunks
    → IsConsistent a
    → IsConsistent b
transfer a b p q v = record {
  ids = subst (Distinct (λ x. x.id)) (sym p) v.ids;
  owned =
      subst₂ (λ sessions chunks. All (λ c. exists (has_id c.upload_id) sessions ≡ true) chunks)
        (sym p) (sym q) v.owned;
  sessions = subst₂ (λ sessions chunks. All (SessionOk chunks) sessions) (sym p) (sym q) v.sessions;
}

after_finalize :
    {A B : Type 0} (x : Result Failure A × Session) (db : Db) (m : A → Action B)
    → IsConsistent db
    → SameUploads (open_session db) x.1
    → ((a : A) (s : Session) → IsConsistent s.pending → IsConsistent (m a s).1.committed)
    → IsConsistent (continue x.0 m x.1).1.committed
after_finalize (ok a, s) db m v same go = go a s (transfer db s.pending same.sessions same.chunks v)
after_finalize (err e, s) db m v same go =
    transfer db s.committed (ap (λ (d : Db). d.upload_sessions) same.committed)
      (ap (λ (d : Db). d.upload_chunks) same.committed) v

pub check_complete_cases :
    (session : UploadSession) (chunks : List UploadChunk) (s : Session)
    → (check_complete session chunks s ≡ (ok tt, s))
      ⊎ ((e : Failure) × (check_complete session chunks s ≡ (err e, s)))
unfolding check_complete
check_complete_cases session chunks s =
    elim (Bool-cases (session.received_chunks == session.expected_chunks)) [
      | inr a ↦
          inr
            (api_error (validation_error "Upload is missing chunks."), rw (a, check_complete) refl)
      | inl a ↦ elim (Bool-cases (length chunks == session.expected_chunks)) [
        | inr b ↦ inr (
          api_error (validation_error "Upload is missing chunks."),
          rw (a, check_complete) (rw b refl),
        )
        | inl b ↦ elim (Bool-cases (total_bytes chunks == session.total_size)) [
          | inr c ↦ inr (
            api_error (validation_error "Assembled blob size mismatch."),
            rw (a, check_complete) (rw b (rw c refl)),
          )
          | inl c ↦ inl (rw (a, check_complete) (rw b (rw c refl)))
        ]
      ]
    ]

-- `complete_upload` keeps the tables of uploads consistent.
pub complete_upload-IsConsistent :
    (sha256 : List ℕ → Text) (now now' epoch user_id note_id attachment_id upload_id : ℕ)
    (content_type if_match : Option Text) (db : Db)
    → IsConsistent db
    → IsConsistent
        (run
          (complete_upload sha256 now now' epoch user_id note_id attachment_id upload_id
            content_type if_match)
          db).1
unfolding run complete_upload
complete_upload-IsConsistent sha256 now now' epoch user note att k content_type if_match db v =
    upload_session_cases (λ x. IsConsistent x.1.committed) _ now now' user note att k db v
      (λ e db' v'. v')
      λ session found live _.
        let db₁ = cleaned now user db in
        let v₁ = cleaned-IsConsistent now user db v in
        elim (check_complete_cases session (upload_chunks_of k db₁) (open_session db₁)) [
          | inr (e, bad) ↦ rw bad v₁
          | inl good ↦ rw good (
              after_finalize
                (finalize_chunked_upload sha256 epoch user note att k session.total_size
                  content_type if_match (open_session db₁))
                db₁ _ v₁
                ((Spares-finalize sha256 epoch user note att k session.total_size content_type
                    if_match).after
                  (open_session db₁))
                (λ a s w. removed-IsConsistent s.pending k w))
        ]
