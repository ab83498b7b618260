-- ===== src/Uploads/Invariant.antt =====
-- app/notes/uploads.py: what the tables `upload_sessions` and `upload_chunks` record of an upload, and
-- that aborting sessions keeps it.
use super_secure_notes_api.Prelude.{
  ℕ, ◌<◌, ◌≡◌, ◌≢◌, refl, subst, sym, ◌∙◌, Bool, true, List, [], ◌∷◌, arith, length, if◌then◌else◌,
}
use super_secure_notes_api.Db.Models.{UploadSession, UploadChunk, Db}
use super_secure_notes_api.Db.Table.{select, exists, remove, update}
use super_secure_notes_api.Db.Table.Laws.{
  All, All-remove, All-map, All-update_split, select-remove_ne,
}
use super_secure_notes_api.Db.Table.Order.{Distinct, Distinct-update}
use super_secure_notes_api.Notes.ChunkSize.{chunk_size_bytes, total_chunks_for_size}
use super_secure_notes_api.Notes.ChunkSize.Sums.{chunk_len}
use super_secure_notes_api.Notes.Queries.{in_upload}
use super_secure_notes_api.Uploads.{is_in_progress, has_id, abort_session, abort_sessions}

-- A chunk has an index of its upload and the size that goes with the index.
abbrev pub Fits : ℕ → UploadChunk → Type 0
Fits total_size c =
    (c.chunk_index < total_chunks_for_size total_size)
    × (length c.content ≡ chunk_len total_size c.chunk_index)

-- `chunks` are the chunks that the session has received so far.
pub record Received (chunks : List UploadChunk) (x : UploadSession) : Type 0 where
  pub chunk_size : x.chunk_size ≡ chunk_size_bytes
  pub expected : x.expected_chunks ≡ total_chunks_for_size x.total_size
  pub received : x.received_chunks ≡ length chunks
  pub fit : All (Fits x.total_size) chunks
  pub distinct : Distinct (λ c. c.chunk_index) chunks

abbrev pub SessionOk : List UploadChunk → UploadSession → Type 0
SessionOk chunks x = is_in_progress x.status ≡ true → Received (select (in_upload x.id) chunks) x

-- Ids are distinct, each chunk belongs to a session, and the sessions in progress have received the
-- chunks that they count, with the right sizes, at most one for each index.
pub record IsConsistent (db : Db) : Type 0 where
  pub ids : Distinct (λ (x : UploadSession). x.id) db.upload_sessions
  pub owned : All (λ c. exists (has_id c.upload_id) db.upload_sessions ≡ true) db.upload_chunks
  pub sessions : All (SessionOk db.upload_chunks) db.upload_sessions

-- Assignments to a session that keep its id.
module _ (p : UploadSession → Bool) (f : UploadSession → UploadSession)
    (keep : (x : UploadSession) → (f x).id ≡ x.id) where
  update_id : (x : UploadSession) → (if p x then f x else x).id ≡ x.id
  update_id x = ground (arith, keep x)

  pub exists-update :
      (k : ℕ) (rows : List UploadSession)
      → exists (has_id k) (update p f rows) ≡ exists (has_id k) rows
  unfolding exists update
  exists-update k [] = refl
  exists-update k (x ∷ rows) = ground (arith, update_id x, exists-update k rows)

  pub owned-update :
      (sessions : List UploadSession) (chunks : List UploadChunk)
      → All (λ c. exists (has_id c.upload_id) sessions ≡ true) chunks
      → All (λ c. exists (has_id c.upload_id) (update p f sessions) ≡ true) chunks
  owned-update sessions chunks all =
      All-map _ _ chunks (λ c h. exists-update c.upload_id sessions ∙ h) all

-- The chunks of another upload are not among those that a DELETE by upload takes.
pub other_chunks :
    (k j : ℕ) (chunks : List UploadChunk)
    → j ≢ k
    → select (in_upload j) (remove (in_upload k) chunks) ≡ select (in_upload j) chunks
other_chunks k j chunks h =
    select-remove_ne (in_upload j) (in_upload k) chunks (λ c hit. ground arith)

pub abort_session-IsConsistent :
    (session : UploadSession) (db : Db) → IsConsistent db → IsConsistent (abort_session session db)
unfolding abort_session
abort_session-IsConsistent session db v = record {
  ids = Distinct-update _ (has_id session.id) _ db.upload_sessions (λ x. refl) v.ids;
  owned =
      owned-update _ _ (λ x. refl) db.upload_sessions _
        (All-remove _ (in_upload session.id) db.upload_chunks v.owned);
  sessions =
      All-update_split (SessionOk db.upload_chunks) _ (has_id session.id) _ db.upload_sessions
        (λ x hit h live. cc)
        (λ x miss h live.
          subst (λ cs. Received cs x)
            (sym (other_chunks session.id x.id db.upload_chunks (λ e. ground arith))) (h live))
        v.sessions;
}

pub abort_sessions-IsConsistent :
    (sessions : List UploadSession) (db : Db)
    → IsConsistent db
    → IsConsistent (abort_sessions sessions db)
unfolding abort_sessions
abort_sessions-IsConsistent [] db v = v
abort_sessions-IsConsistent (x ∷ rest) db v =
    abort_sessions-IsConsistent rest (abort_session x db) (abort_session-IsConsistent x db v)
