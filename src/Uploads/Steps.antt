-- ===== src/Uploads/Steps.antt =====
-- app/notes/uploads.py: the writes of `init_upload`, `upload_chunk` and `complete_upload` and the
-- consistency of the tables.
use super_secure_notes_api.Prelude.{
  ℕ, ◌+◌, ◌≡◌, ◌≢◌, refl, subst, ap, sym, ◌∙◌, Bool, true, false, ◌&&◌, some, List, [], ◌∷◌, arith,
  ◌==◌, ==→eq, length, Bool-cases, inl, inr,
}
use super_secure_notes_api.Prelude.Int.{pos}
use super_secure_notes_api.Db.Models.{UploadSession, UploadChunk, Db}
use super_secure_notes_api.Db.Table.{select, find, exists, remove, update}
use super_secure_notes_api.Db.Table.Laws.{
  All, All-both, All-remove, All-remove_self, All-update, All-map, All-update_split, find-test,
  exists-false, exists-remove_ne, select-none, select-cons_hit, select-cons_miss, select-update,
  select-update_ne, length-update,
}
use super_secure_notes_api.Db.Table.Order.{Distinct-update, Distinct-remove, Distinct-find}
use super_secure_notes_api.Notes.ChunkSize.{chunk_size_bytes, total_chunks_for_size}
use super_secure_notes_api.Notes.ChunkSize.Sums.{chunk_len}
use super_secure_notes_api.Notes.Queries.{in_upload, has_index}
use super_secure_notes_api.Uploads.{has_id, is_session}
use super_secure_notes_api.Uploads.Invariant.{
  Fits, Received, SessionOk, IsConsistent, owned-update, other_chunks,
}

-- The session that a request names is the only one with its id.
pub same_session :
    (db : Db) (user note att k : ℕ) (session : UploadSession)
    → IsConsistent db
    → find (is_session user note att k) db.upload_sessions ≡ some session
    → (session.id ≡ k) × All (λ (x : UploadSession). x.id ≡ k → x ≡ session) db.upload_sessions
same_session db user note att k session v found =
    let hit = find-test (is_session user note att k) db.upload_sessions session found in
    let id : session.id ≡ k = ground arith in
    (
      id,
      All-map _ _ db.upload_sessions (λ x h e. h (e ∙ sym id))
          (Distinct-find (λ x. x.id) (is_session user note att k) db.upload_sessions session v.ids
            found),
    )

-- A new session with an id that none has.
pub add_session-IsConsistent :
    (db : Db) (x : UploadSession)
    → exists (has_id x.id) db.upload_sessions ≡ false
    → x.chunk_size ≡ chunk_size_bytes
    → x.expected_chunks ≡ total_chunks_for_size x.total_size
    → x.received_chunks ≡ 0
    → IsConsistent db
    → IsConsistent (record db { upload_sessions = x ∷ db.upload_sessions })
unfolding exists
add_session-IsConsistent db x fresh size expected received v = record {
  ids = (
    All-map _ _ db.upload_sessions (λ y h e. ground arith)
        (exists-false (has_id x.id) db.upload_sessions fresh),
    v.ids,
  );
  owned = All-map _ _ db.upload_chunks (λ c h. ground (arith, h)) v.owned;
  sessions = (λ _. first, v.sessions);
}
  where
    not_new :
        (c : UploadChunk)
        → exists (has_id c.upload_id) db.upload_sessions ≡ true
        → in_upload x.id c ≡ false
    not_new c h = elim (Bool-cases (c.upload_id == x.id)) [
      | inl same ↦ cc (
        fresh,
        subst (λ k. exists (has_id k) db.upload_sessions ≡ true) (==→eq c.upload_id x.id same) h,
      )
      | inr other ↦ other
    ]

    no_chunks : select (in_upload x.id) db.upload_chunks ≡ []
    no_chunks =
        select-none (in_upload x.id) db.upload_chunks
          (All-map _ _ db.upload_chunks (λ c h. not_new c h) v.owned)

    first : Received (select (in_upload x.id) db.upload_chunks) x
    first = rw no_chunks (record {
      chunk_size = size;
      expected = expected;
      received = received;
      fit = tt;
      distinct = tt;
    })

-- One more chunk, at an index that the upload did not have.
pub new_chunk-IsConsistent :
    (db : Db) (session : UploadSession) (c : UploadChunk)
    → All (λ (x : UploadSession). x.id ≡ c.upload_id → x ≡ session) db.upload_sessions
    → exists (has_id c.upload_id) db.upload_sessions ≡ true
    → Fits session.total_size c
    → All
        (λ (y : UploadChunk). y.chunk_index ≢ c.chunk_index)
        (select (in_upload c.upload_id) db.upload_chunks)
    → IsConsistent db
    → IsConsistent (record db {
      upload_chunks = c ∷ db.upload_chunks;
      upload_sessions =
          update
            (has_id c.upload_id)
            (λ x. record x { received_chunks = x.received_chunks + 1 })
            db.upload_sessions;
    })
new_chunk-IsConsistent db session c only owner fits new v = record {
  ids = Distinct-update _ (has_id c.upload_id) _ db.upload_sessions (λ x. refl) v.ids;
  owned = owned-update _ _ (λ x. refl) db.upload_sessions (c ∷ db.upload_chunks) (owner, v.owned);
  sessions =
      All-update_split _ _ (has_id c.upload_id) _ db.upload_sessions met left
        (All-both (SessionOk db.upload_chunks) _ db.upload_sessions v.sessions only);
}
  where
    met :
        (x : UploadSession)
        → has_id c.upload_id x ≡ true
        → SessionOk db.upload_chunks x × (x.id ≡ c.upload_id → x ≡ session)
        → SessionOk (c ∷ db.upload_chunks) (record x { received_chunks = x.received_chunks + 1 })
    met x hit (h, one) live =
        let id : x.id ≡ c.upload_id = ==→eq x.id c.upload_id hit in
        let r : Received (select (in_upload x.id) db.upload_chunks) x = h live in
        let total : session.total_size ≡ x.total_size =
          ap (λ (y : UploadSession). y.total_size) (sym (one id)) in
        rw (select-cons_hit (in_upload x.id) c db.upload_chunks (ground arith)) (record {
          chunk_size = r.chunk_size;
          expected = r.expected;
          received = omega (arith, r.received);
          fit = (subst (λ n. Fits n c) total fits, r.fit);
          distinct = (
            subst
                (λ k.
                  All (λ (y : UploadChunk). y.chunk_index ≢ c.chunk_index)
                    (select (in_upload k) db.upload_chunks))
                (sym id) new,
            r.distinct,
          );
        })

    left :
        (x : UploadSession)
        → has_id c.upload_id x ≡ false
        → SessionOk db.upload_chunks x × (x.id ≡ c.upload_id → x ≡ session)
        → SessionOk (c ∷ db.upload_chunks) x
    left x miss (h, one) live =
        rw (select-cons_miss (in_upload x.id) c db.upload_chunks (ground arith)) (h live)

-- The bytes of a chunk that is there, sent again.
pub same_chunk-IsConsistent :
    (db : Db) (session : UploadSession) (k i : ℕ) (content : List ℕ)
    → All (λ (x : UploadSession). x.id ≡ k → x ≡ session) db.upload_sessions
    → length content ≡ chunk_len session.total_size i
    → IsConsistent db
    → IsConsistent (record db {
      upload_chunks =
          update
            (λ x. in_upload k x && has_index (pos i) x.chunk_index)
            (λ x. record x { content = content })
            db.upload_chunks;
    })
same_chunk-IsConsistent db session k i content only len v = record {
  ids = v.ids;
  owned = All-update _ hits _ db.upload_chunks (λ c hit h. h) v.owned;
  sessions =
      All-map _ _ db.upload_sessions kept
        (All-both (SessionOk db.upload_chunks) _ db.upload_sessions v.sessions only);
}
  where
    hits : UploadChunk → Bool
    hits x = in_upload k x && has_index (pos i) x.chunk_index

    resent : UploadChunk → UploadChunk
    resent x = record x { content = content }

    fits_again :
        (x : UploadSession) (c : UploadChunk)
        → x ≡ session
        → hits c ≡ true
        → Fits x.total_size c
        → Fits x.total_size (resent c)
    fits_again x c one hit fit =
        let index : i ≡ c.chunk_index = ground arith in
        (fit.0, len ∙ (λ j. chunk_len ((sym one) j).total_size (index j)))

    kept :
        (x : UploadSession)
        → SessionOk db.upload_chunks x × (x.id ≡ k → x ≡ session)
        → SessionOk (update hits resent db.upload_chunks) x
    kept x (h, one) live =
        let r : Received (select (in_upload x.id) db.upload_chunks) x = h live in
        elim (Bool-cases (x.id == k)) [
          | inl same ↦
              rw (select-update (in_upload x.id) hits resent db.upload_chunks (λ c. refl)) (record {
                chunk_size = r.chunk_size;
                expected = r.expected;
                received =
                    r.received
                    ∙ sym (length-update hits resent (select (in_upload x.id) db.upload_chunks));
                fit =
                    All-update _ hits resent _
                      (λ c hit fit. fits_again x c (one (==→eq x.id k same)) hit fit) r.fit;
                distinct =
                    Distinct-update (λ c. c.chunk_index) hits resent _ (λ c. refl) r.distinct;
              })
          | inr other ↦
              rw
                (select-update_ne (in_upload x.id) hits resent db.upload_chunks (λ c. refl)
                  (λ c hit. ground arith))
                r
        ]

-- The session of a finished upload and its chunks are gone.
pub removed-IsConsistent :
    (db : Db) (k : ℕ)
    → IsConsistent db
    → IsConsistent (record db {
      upload_chunks = remove (in_upload k) db.upload_chunks;
      upload_sessions = remove (has_id k) db.upload_sessions;
    })
removed-IsConsistent db k v = record {
  ids = Distinct-remove _ (has_id k) db.upload_sessions v.ids;
  owned =
      All-map _ _ (remove (in_upload k) db.upload_chunks)
        (λ c (h, miss).
          exists-remove_ne (has_id c.upload_id) (has_id k) db.upload_sessions
            (λ x hit. ground arith)
          ∙ h)
        (All-both (λ c. exists (has_id c.upload_id) db.upload_sessions ≡ true) _ _
          (All-remove _ (in_upload k) db.upload_chunks v.owned)
          (All-remove_self (in_upload k) db.upload_chunks));
  sessions =
      All-map _ _ (remove (has_id k) db.upload_sessions)
        (λ x (h, miss) live.
          subst (λ cs. Received cs x)
            (sym (other_chunks k x.id db.upload_chunks (λ e. ground arith))) (h live))
        (All-both (SessionOk db.upload_chunks) _ _
          (All-remove _ (has_id k) db.upload_sessions v.sessions)
          (All-remove_self (has_id k) db.upload_sessions));
}
