-- ===== src/Uploads/Complete.antt =====
-- app/notes/uploads.py: the tests of `complete_upload` on a consistent database.
use super_secure_notes_api.Prelude.{
  ℕ, suc, ◌+◌, ◌≡◌, refl, ap, ◌∙◌, true, List, [], ◌∷◌, some, arith, ◌==◌, ==→eq, length,
  Bool-cases, inl, inr, if◌then◌else◌,
}
use super_secure_notes_api.Prelude.Result.{ok, err}
use super_secure_notes_api.Errors.{validation_error}
use super_secure_notes_api.Db.Models.{UploadSession, UploadChunk, Db}
use super_secure_notes_api.Db.Table.{select, find, order_by}
use super_secure_notes_api.Db.Table.Laws.{All, All-map}
use super_secure_notes_api.Db.Table.Order.{
  IsRange, All-order_by, length-order_by, order_by-Ascending, Ascending-IsRange,
}
use super_secure_notes_api.Db.Session.{Session, api_error}
use super_secure_notes_api.Notes.ChunkSize.{total_chunks_for_size}
use super_secure_notes_api.Notes.ChunkSize.Sums.{
  chunk_len, sum_chunk_len, sum_chunk_len-total, sum_chunk_len-zero, sum_chunk_len-suc,
}
use super_secure_notes_api.Notes.Queries.{in_upload, upload_chunks_of}
use super_secure_notes_api.Uploads.{is_in_progress, is_session, total_bytes, check_complete}
use super_secure_notes_api.Uploads.Invariant.{Fits, Received, IsConsistent}
use super_secure_notes_api.Uploads.Requests.{found-Received}

total_bytes-range :
    (size lo n : ℕ) (rows : List UploadChunk)
    → lo + length rows ≡ n
    → IsRange (λ c. c.chunk_index) lo rows
    → All (Fits size) rows
    → total_bytes rows + sum_chunk_len size lo ≡ sum_chunk_len size n
total_bytes-range size lo n [] len range fit =
    let same : sum_chunk_len size lo ≡ sum_chunk_len size n =
      ap (sum_chunk_len size) {x = lo} {y = n} (omega arith) in
    omega (arith, same)
total_bytes-range size lo n (x ∷ rows) len range fit =
    let rest = total_bytes-range size (suc lo) n rows (omega arith) range.1 fit.1 in
    let here : length x.content ≡ chunk_len size lo = fit.0.1 ∙ ap (chunk_len size) range.0 in
    omega (arith, rest, here, sum_chunk_len-suc size lo)

-- All chunks of an upload are there, in the order of their indices, with the size of the upload.
pub complete_chunks :
    (chunks : List UploadChunk) (session : UploadSession)
    → Received chunks session
    → session.received_chunks ≡ session.expected_chunks
    → IsRange (λ c. c.chunk_index) 0 (order_by (λ c. c.chunk_index) chunks)
      × (length (order_by (λ c. c.chunk_index) chunks) ≡ session.expected_chunks)
      × (total_bytes (order_by (λ c. c.chunk_index) chunks) ≡ session.total_size)
complete_chunks chunks session r all =
    let size = session.total_size in
    let len = length-order_by (λ c. c.chunk_index) chunks in
    let fit = All-order_by (λ c. c.chunk_index) (Fits size) chunks r.fit in
    let count : length (order_by (λ c. c.chunk_index) chunks) ≡ total_chunks_for_size size =
      omega (arith, len, r.received, r.expected) in
    let range =
      Ascending-IsRange (λ c. c.chunk_index) 0 (total_chunks_for_size size)
        (order_by (λ c. c.chunk_index) chunks)
        (order_by-Ascending (λ c. c.chunk_index) chunks r.distinct)
        (All-map _ _ (order_by (λ c. c.chunk_index) chunks) (λ c h. h.0) fit)
        (omega (arith, count)) in
    (
      range,
      omega (arith, count, r.expected),
      omega (
        arith,
        sum_chunk_len-zero size,
        sum_chunk_len-total size,
        total_bytes-range size 0 (total_chunks_for_size size) (order_by (λ c. c.chunk_index) chunks)
            (omega (arith, count)) range fit,
      ),
    )

-- On a consistent database the number of chunks received is the only test of `complete_upload` that
-- can fail: when it is the expected number, the stored chunks are as many and have the announced size.
pub check_complete_iff :
    (db : Db) (user_id note_id attachment_id upload_id : ℕ) (session : UploadSession) (s : Session)
    → IsConsistent db
    → find (is_session user_id note_id attachment_id upload_id) db.upload_sessions ≡ some session
    → is_in_progress session.status ≡ true
    → check_complete session (upload_chunks_of upload_id db) s ≡ (
        if session.received_chunks == session.expected_chunks
        then (ok tt, s)
        else (err (api_error (validation_error "Upload is missing chunks.")), s))
unfolding check_complete upload_chunks_of
check_complete_iff db user note att k session s v found live =
    let r = found-Received db user note att k session v found live in
    elim (Bool-cases (session.received_chunks == session.expected_chunks)) [
      | inr few ↦ rw (few, check_complete) refl
      | inl all ↦
          let (_, count, size) =
            complete_chunks (select (in_upload k) db.upload_chunks) session r (==→eq _ _ all) in
          rw (all, check_complete) (rw (count, size) (ground arith))
    ]
