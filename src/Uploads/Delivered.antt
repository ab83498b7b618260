-- ===== src/Uploads/Delivered.antt =====
-- app/notes/uploads.py and app/notes/router.py: the chunks of an upload that `complete_upload`
-- finished, as `get_attachment_chunk` reads them.
use super_secure_notes_api.Prelude.{
  ℕ, suc, ◌+◌, ◌≡◌, ◌<◌, ◌≤◌, refl, sym, ap, ◌∙◌, subst, Option, some, ◌&&◌, List, [], ◌∷◌, ◌++◌,
  arith, map, ◌==◌, ==_refl, ==→eq, length, Bool-cases, inl, inr,
}
use super_secure_notes_api.Prelude.Int.{pos}
use super_secure_notes_api.Prelude.Result.{ok}
use super_secure_notes_api.Prelude.Text.{Text}
use super_secure_notes_api.Db.Models.{
  Note, NoteAttachment, AttachmentChunk, UploadSession, UploadChunk, Db,
}
use super_secure_notes_api.Db.Table.{find, select, order_by}
use super_secure_notes_api.Db.Table.Laws.{find-All, find-test}
use super_secure_notes_api.Db.Table.Order.{IsRange, All-order_by}
use super_secure_notes_api.Db.Session.{Session, open_session, run}
use super_secure_notes_api.Db.Session.Holds.{Holds, Holds-continue, Holds-run}
use super_secure_notes_api.Notes.ChunkSize.{total_chunks_for_size, expected_attachment_chunk_size}
use super_secure_notes_api.Notes.ChunkSize.Sums.{chunk_len, expected_of_index}
use super_secure_notes_api.Notes.Schemas.{AttachmentUploadResponse}
use super_secure_notes_api.Notes.Queries.{
  is_active, is_attachment, chunk_of, has_index, concat, in_upload, upload_chunks_of,
}
use super_secure_notes_api.Notes.Attachments.{
  promoted, read_chunk, get_attachment_chunk, finalize_chunked_upload,
}
use super_secure_notes_api.Notes.Attachments.Finalized.{Finalized, finalize-Finalized}
use super_secure_notes_api.Uploads.{complete_upload, total_bytes}
use super_secure_notes_api.Uploads.Invariant.{Fits, Received, IsConsistent}
use super_secure_notes_api.Uploads.Lookup.{cleaned, cleaned-IsConsistent, upload_session_cases}
use super_secure_notes_api.Uploads.Requests.{found-Received}
use super_secure_notes_api.Uploads.Complete.{complete_chunks, check_complete_iff}

-- Every index of a range has its chunk.
find-IsRange :
    (lo i : ℕ) (rows : List UploadChunk)
    → IsRange (λ c. c.chunk_index) lo rows
    → lo ≤ i
    → i < lo + length rows
    → (c : UploadChunk) × (find (λ c. c.chunk_index == i) rows ≡ some c)
unfolding find
find-IsRange lo i [] range le lt = absurd (omega arith)
find-IsRange lo i (x ∷ rows) range le lt = elim (Bool-cases (x.chunk_index == i)) [
  | inl hit ↦ (x, rw hit refl)
  | inr miss ↦
      rw miss (find-IsRange (suc lo) i rows range.1 (ground (arith, range.0)) (omega arith))
]

-- A promoted chunk is found under the same index.
find-promoted :
    (user note att i : ℕ) (rows : List UploadChunk) (rest : List AttachmentChunk) (c : UploadChunk)
    → find (λ c. c.chunk_index == i) rows ≡ some c
    → find
        (λ x. chunk_of user note att x && has_index (pos i) x.chunk_index)
        (map (promoted user note att) rows ++ rest)
      ≡ some (promoted user note att c)
unfolding find
find-promoted user note att i [] rest c = λ h. cc
find-promoted user note att i (x ∷ rows) rest c = elim (Bool-cases (x.chunk_index == i)) [
  | inl hit ↦ rw (hit, ==_refl user, ==_refl note, ==_refl att) (λ h. cc)
  | inr miss ↦
      rw (miss, ==_refl user, ==_refl note, ==_refl att) (find-promoted user note att i rows rest c)
]

-- The route reads the chunk.
read_promoted :
    (user note att i : ℕ) (db : Db) (chunks : List UploadChunk) (rest : List AttachmentChunk)
    (y : Note) (a : NoteAttachment) (c : UploadChunk)
    → find (is_active user note) db.notes ≡ some y
    → find (is_attachment user note att) db.note_attachments ≡ some a
    → db.attachment_chunks ≡ map (promoted user note att) chunks ++ rest
    → find (λ c. c.chunk_index == i) chunks ≡ some c
    → expected_attachment_chunk_size a.size_bytes (pos i) ≡ ok (length c.content)
    → run (get_attachment_chunk user note att (pos i)) db
      ≡ (ok (record { content = c.content; etag = a.etag }), db)
unfolding run get_attachment_chunk read_chunk
read_promoted user note att i db chunks rest y a c active there stored found expected =
    let at =
      ap
        (find
          (λ (x : AttachmentChunk). chunk_of user note att x && has_index (pos i) x.chunk_index))
        stored
      ∙ find-promoted user note att i chunks rest c found in
    rw (active, there, expected, at, ==_refl (length c.content)) refl

-- What is served of an upload that is finished. `chunks` are its chunks, in order.
pub record Delivered (sha256 : List ℕ → Text) (user note att : ℕ) (chunks : List UploadChunk)
    (r : AttachmentUploadResponse) (db : Db) : Type 0 where
  pub etag : r.etag ≡ sha256 (concat chunks)
  pub size : r.size_bytes ≡ total_bytes chunks
  pub count : length chunks ≡ total_chunks_for_size r.size_bytes
  pub served :
      (i : ℕ)
      → i < total_chunks_for_size r.size_bytes
      → (c : UploadChunk) × (find (λ c. c.chunk_index == i) chunks ≡ some c)
        × (run (get_attachment_chunk user note att (pos i)) db
            ≡ (ok (record { content = c.content; etag = r.etag }), db))

Finalized-Delivered :
    (sha256 : List ℕ → Text) (user note att k : ℕ) (session : UploadSession) (s s' : Session)
    (r : AttachmentUploadResponse)
    → Received (select (in_upload k) s.pending.upload_chunks) session
    → session.received_chunks ≡ session.expected_chunks
    → Finalized sha256 user note att k session.total_size s r s'
    → (db : Db) → db.notes ≡ s'.pending.notes
    → db.note_attachments ≡ s'.pending.note_attachments
    → db.attachment_chunks ≡ s'.pending.attachment_chunks
    → Delivered sha256 user note att (upload_chunks_of k s.pending) r db
unfolding upload_chunks_of
Finalized-Delivered sha256 user note att k session s s' r received all
      (y, a, rest, active, there, size, tag, total, etag, stored) db notes attachments chunks =
    let uploaded =
      order_by (λ (c : UploadChunk). c.chunk_index)
        (select (in_upload k) s.pending.upload_chunks) in
    let (range, count, bytes) =
      complete_chunks (select (in_upload k) s.pending.upload_chunks) session received all in
    let same : session.expected_chunks ≡ total_chunks_for_size r.size_bytes =
      received.expected ∙ ap total_chunks_for_size (sym total) in
    let fit =
      All-order_by (λ c. c.chunk_index) (Fits session.total_size)
        (select (in_upload k) s.pending.upload_chunks) received.fit in
    record {
      etag = etag;
      size = total ∙ sym bytes;
      count = count ∙ same;
      served = λ i lt.
          let (c, found) =
            find-IsRange 0 i uploaded range (omega arith) (omega (arith, count, same, lt)) in
          let f =
            find-All (Fits session.total_size) (λ c. c.chunk_index == i) uploaded c fit found in
          let at : c.chunk_index ≡ i =
            ==→eq _ _ (find-test (λ (c : UploadChunk). c.chunk_index == i) uploaded c found) in
          let expected : expected_attachment_chunk_size a.size_bytes (pos i)
              ≡ ok (length c.content) =
            ap (λ n. expected_attachment_chunk_size n (pos i)) size
            ∙ expected_of_index session.total_size i
                (subst (λ j. j < total_chunks_for_size session.total_size) at f.0)
            ∙ ap ok (ap (chunk_len session.total_size) (sym at) ∙ sym f.1) in
          (
            c,
            found,
            read_promoted user note att i db uploaded rest y a c
                  (ap (find (is_active user note)) notes ∙ active)
                  (ap (find (is_attachment user note att)) attachments ∙ there) (chunks ∙ stored)
                  found expected
                ∙ ap (λ e. (ok (record { content = c.content; etag = e }), db)) tag,
          );
    }

-- When `complete_upload` returns a reply on a consistent database, the etag of the reply is the digest
-- of the upload's chunks one after another, in the order of their indices, its size is theirs, there
-- is a chunk for each index below the number of chunks of that size, and `get_attachment_chunk` serves
-- each of them under its index, with that etag.
pub complete_upload-Delivered :
    (sha256 : List ℕ → Text) (now now' epoch user_id note_id attachment_id upload_id : ℕ)
    (content_type if_match : Option Text) (db db' : Db) (r : AttachmentUploadResponse)
    → IsConsistent db
    → run
        (complete_upload sha256 now now' epoch user_id note_id attachment_id upload_id content_type
          if_match)
        db
      ≡ (ok r, db')
    → Delivered sha256 user_id note_id attachment_id
        (upload_chunks_of upload_id (cleaned now user_id db))
        r
        db'
unfolding complete_upload
complete_upload-Delivered sha256 now now' epoch user note att k content_type if_match db db' r v h =
    let db₁ = cleaned now user db in
    let v₁ = cleaned-IsConsistent now user db v in
    let R : AttachmentUploadResponse → Session → Type 0 =
      λ r s. Delivered sha256 user note att (upload_chunks_of k db₁) r s.committed in
    Holds-run (Delivered sha256 user note att (upload_chunks_of k db₁))
      (complete_upload sha256 now now' epoch user note att k content_type if_match) db db' r
      (upload_session_cases (Holds R) _ now now' user note att k db v (λ e d w. tt)
        λ session found live _.
          let tests =
            check_complete_iff db₁ user note att k session (open_session db₁) v₁ found live in
          elim (Bool-cases (session.received_chunks == session.expected_chunks)) [
            | inr few ↦ rw (tests, few) tt
            | inl all ↦
                rw (tests, all)
                  (Holds-continue R
                    (Finalized sha256 user note att k session.total_size (open_session db₁))
                    (finalize_chunked_upload sha256 epoch user note att k session.total_size
                      content_type if_match (open_session db₁))
                    _
                    (finalize-Finalized sha256 epoch user note att k session.total_size content_type
                      if_match (open_session db₁))
                    λ r s' f.
                      Finalized-Delivered sha256 user note att k session (open_session db₁) s' r
                        (found-Received db₁ user note att k session v₁ found live) (==→eq _ _ all) f
                        _ refl refl refl)
          ])
      h
