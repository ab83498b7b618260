-- ===== src/Uploads/Accepted.antt =====
-- app/notes/uploads.py: `upload_chunk` takes every chunk of the right size.
use super_secure_notes_api.Prelude.{
  ℕ, ◌≤◌, ◌<◌, ◌≡◌, refl, ◌∙◌, Bool, true, false, ◌&&◌, some, List, arith, ltb, ◌==◌, ==_refl,
  length, Option-cases, inl, inr,
}
use super_secure_notes_api.Prelude.Int.{pos}
use super_secure_notes_api.Prelude.Result.{ok}
use super_secure_notes_api.Db.Models.{UploadSession, UploadChunk, Db}
use super_secure_notes_api.Db.Table.{find}
use super_secure_notes_api.Db.Table.Laws.{find-update_found, find-test}
use super_secure_notes_api.Db.Session.{Session, open_session, run}
use super_secure_notes_api.Notes.ChunkSize.{total_chunks_for_size, expected_chunk_size}
use super_secure_notes_api.Notes.ChunkSize.Sums.{
  chunk_len, expected_chunk_size-eq, expected_of_index,
}
use super_secure_notes_api.Notes.Queries.{in_upload}
use super_secure_notes_api.Uploads.{
  is_in_progress, is_session, get_upload_session, check_upload_session, store_chunk, upload_chunk,
}
use super_secure_notes_api.Uploads.Invariant.{IsConsistent}
use super_secure_notes_api.Uploads.Lookup.{cleaned, cleaned-IsConsistent}
use super_secure_notes_api.Uploads.Requests.{found-Received}

-- The chunk of an upload at an index.
abbrev pub is_chunk_at : ℕ → ℕ → UploadChunk → Bool
is_chunk_at k i x = in_upload k x && x.chunk_index == i

-- The write succeeds, and the chunk is found then.
store_chunk_found :
    (k i : ℕ) (content : List ℕ) (db : Db)
    → (s : Session) × (store_chunk k
          (pos i)
          content
          (find (is_chunk_at k i) db.upload_chunks)
          (open_session db)
        ≡ (ok tt, s))
      × (c : UploadChunk) × (find (is_chunk_at k i) s.pending.upload_chunks ≡ some c)
      × (c.content ≡ content)
unfolding store_chunk find
store_chunk_found k i content db = elim (Option-cases (find (is_chunk_at k i) db.upload_chunks)) [
  | inl fresh ↦ rw fresh (
    _,
    refl,
    record { upload_id = k; chunk_index = i; content = content },
    rw (==_refl k, ==_refl i) refl,
    refl,
  )
  | inr (c, there) ↦
      let hit = find-test (is_chunk_at k i) db.upload_chunks c there in
      rw there (
        _,
        refl,
        record c { content = content },
        find-update_found (is_chunk_at k i) (is_chunk_at k i) _ db.upload_chunks c (λ x. refl) there
            ∙ rw hit refl,
        refl,
      )
]

-- On a consistent database, for a session that is found once the expired sessions of the user are
-- aborted, that is in progress and has not expired, `upload_chunk` takes a chunk at every index below the
-- number of chunks if it has the size of that index: the request succeeds, also when there is a chunk at
-- that index already, and the bytes that were sent are those that are stored at the index then.
pub upload_chunk_accepts :
    (now now' user_id note_id attachment_id upload_id i : ℕ) (content : List ℕ) (db : Db)
    (session : UploadSession)
    → IsConsistent db
    → find
        (is_session user_id note_id attachment_id upload_id)
        (cleaned now user_id db).upload_sessions
      ≡ some session
    → is_in_progress session.status ≡ true
    → now' ≤ session.expires_at
    → i < total_chunks_for_size session.total_size
    → length content ≡ chunk_len session.total_size i
    → (db' : Db) × (run
          (upload_chunk now now' user_id note_id attachment_id upload_id (pos i) content)
          db
        ≡ (ok tt, db'))
      × (c : UploadChunk) × (find (is_chunk_at upload_id i) db'.upload_chunks ≡ some c)
      × (c.content ≡ content)
unfolding run upload_chunk get_upload_session check_upload_session
upload_chunk_accepts now now' user note att k i content db session v found live time lt len =
    let db₁ = cleaned now user db in
    let r =
      found-Received db₁ user note att k session (cleaned-IsConsistent now user db v) found live in
    let on_time : ltb session.expires_at now' ≡ false = ground (arith, time) in
    let size : expected_chunk_size session (pos i) ≡ ok (chunk_len session.total_size i) =
      expected_chunk_size-eq session (pos i) r.chunk_size r.expected
      ∙ expected_of_index session.total_size i lt in
    let right : (length content == chunk_len session.total_size i) ≡ true = ground (arith, len) in
    let (s, stored, c, there, same) = store_chunk_found k i content db₁ in
    (s.pending, rw (found, on_time, live, size, right, stored) refl, c, there, same)
