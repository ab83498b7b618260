-- ===== src/Migrations/Upgraded.antt =====
-- alembic/versions/007_migrate_attachment_data.py: the chunks that the upgrade leaves, as `read_chunk`
-- of app/notes reads them.
use super_secure_notes_api.Prelude.{
  ℕ, zero, suc, ◌+◌, ◌*◌, ◌≤◌, ◌<◌, ◌≡◌, ◌≢◌, refl, sym, ap, ◌∙◌, subst, Bool, false, ◌&&◌, some,
  List, [], ◌∷◌, ◌++◌, arith, ◌==◌, ==_refl, ==→eq, length, take, drop, length-take, length-drop,
  drop-drop, Bool-cases, inl, inr, ◌⊎◌,
}
use super_secure_notes_api.Prelude.Int.{pos}
use super_secure_notes_api.Prelude.Result.{Result, ok, err}
use super_secure_notes_api.Db.Models.{NoteAttachment, AttachmentChunk, Db}
use super_secure_notes_api.Db.Table.{find}
use super_secure_notes_api.Db.Table.Laws.{find-All, All, All-map, All-both}
use super_secure_notes_api.Db.Session.{run}
use super_secure_notes_api.Notes.ChunkSize.{
  chunk_size_bytes, total_chunks_for_size, expected_attachment_chunk_size,
}
use super_secure_notes_api.Notes.ChunkSize.Sums.{
  chunk_len, expected_of_index, chunk_len_full, chunk_len_last, chunk_len_le, chunk_start,
}
use super_secure_notes_api.Notes.Queries.{is_attachment, chunk_of, has_index}
use super_secure_notes_api.Notes.Attachments.{read_chunk}
use super_secure_notes_api.Migrations.{
  OldAttachment, DataRow, UpgradeError, out_of_fuel, migrated_chunk_size_bytes, batch_size,
  slice_of, selected_rows, upgrade,
}
use super_secure_notes_api.Migrations.Ends.{Ends-insert_batches}
use super_secure_notes_api.Migrations.Split.{
  slices, slices_other, same_key, Keyed, migrated, insert_rows_lem, insert_batches-eq,
}

-- The upgrade ends on every table, and not for want of fuel.
pub upgrade_ends :
    (table : List OldAttachment) (chunks : List AttachmentChunk)
    → upgrade table chunks ≢ err out_of_fuel
unfolding upgrade
upgrade_ends table chunks =
    Ends-insert_batches migrated_chunk_size_bytes batch_size (omega arith) (omega arith)
      (length (selected_rows table) + 1) (selected_rows table) 0 chunks (omega arith)

-- The chunk of a row at an index.
abbrev at_index : DataRow → ℕ → AttachmentChunk → Bool
at_index r k x = chunk_of r.user_id r.note_id r.attachment_id x && has_index (pos k) x.chunk_index

find-slices :
    (size : ℕ)
    → 0 < size
    → (fuel : ℕ) (r : DataRow) (i j k : ℕ) (bytes : List ℕ) (rest : List AttachmentChunk)
    → length bytes ≤ fuel
    → j * size < length bytes
    → k ≡ i + j
    → find (at_index r k) (slices size fuel r i bytes ++ rest)
      ≡ some (slice_of r k (take size (drop (j * size) bytes)))
unfolding find
find-slices size some_ zero r i j k bytes rest enough lt e = absurd (omega arith)
find-slices size some_ (suc fuel) r i j k [] rest enough lt e = absurd (omega arith)
find-slices size some_ (suc fuel) r i zero k (b ∷ bytes) rest enough lt e =
    let here : i ≡ k = omega arith in
    rw (here, ==_refl r.user_id, ==_refl r.note_id, ==_refl r.attachment_id, ==_refl k)
      (ap (λ n. some (slice_of r k (take size (drop n (b ∷ bytes))))) {x = 0} {y = 0 * size}
        (omega arith))
find-slices size some_ (suc fuel) r i (suc j) k (b ∷ bytes) rest enough lt e =
    let other : (i == k) ≡ false = ground arith in
    let shorter = length-drop size (b ∷ bytes) in
    rw (==_refl r.user_id, ==_refl r.note_id, ==_refl r.attachment_id, other)
      (find-slices size some_ fuel r (i + 1) j k (drop size (b ∷ bytes)) rest
          (omega (arith, shorter)) (omega (arith, shorter)) (omega arith)
        ∙ ap (λ l. some (slice_of r k (take size l)))
            (drop-drop size (j * size) (b ∷ bytes)
              ∙ ap (λ n. drop n (b ∷ bytes)) {x = size + j * size} {y = suc j * size}
                  (omega arith)))

-- The slice of the row's bytes at every index.
abbrev Has : ℕ → List AttachmentChunk → DataRow → Type 0
Has size chunks r =
    (i : ℕ)
    → i * size < length r.content
    → find (at_index r i) chunks ≡ some (slice_of r i (take size (drop (i * size) r.content)))

find-append_other :
    (r : DataRow) (k : ℕ) (xs ys : List AttachmentChunk)
    → All (λ x. chunk_of r.user_id r.note_id r.attachment_id x ≡ false) xs
    → find (at_index r k) (xs ++ ys) ≡ find (at_index r k) ys
unfolding find
find-append_other r k [] ys h = refl
find-append_other r k (x ∷ xs) ys h = rw h.0 (find-append_other r k xs ys h.1)

migrated-Has :
    (size : ℕ)
    → 0 < size
    → (rows : List DataRow) → Keyed rows
    → All (Has size (migrated size rows)) rows
migrated-Has size some_ [] keys = tt
migrated-Has size some_ (row ∷ rows) keys = (
  (λ i lt.
      find-slices size some_ (length row.content) row 0 i i row.content (migrated size rows)
        (omega arith) lt (omega arith)),
  All-map _ _ rows
      (λ r (ne, has) i lt.
        find-append_other r i (slices size (length row.content) row 0 row.content)
          (migrated size rows) (slices_other size (length row.content) row r 0 row.content ne)
        ∙ has i lt)
      (All-both (λ y. same_key y row ≡ false) _ rows keys.0 (migrated-Has size some_ rows keys.1)),
)

-- The size of a slice is the one that a download checks.
length-slice :
    (bytes : List ℕ) (i : ℕ)
    → i < total_chunks_for_size (length bytes)
    → length (take chunk_size_bytes (drop (i * chunk_size_bytes) bytes))
      ≡ chunk_len (length bytes) i
length-slice bytes i lt =
    let cut = length-take chunk_size_bytes (drop (i * chunk_size_bytes) bytes) in
    let left = length-drop (i * chunk_size_bytes) bytes in
    elim (suc_cases i (total_chunks_for_size (length bytes)) lt) [
      | inl last ↦
          omega (
            arith,
            chunk_len_last (length bytes) i last,
            cut,
            left,
            chunk_len_le (length bytes) i lt,
          )
      | inr more ↦ omega (
        arith,
        chunk_len_full (length bytes) i more,
        cut,
        left,
        chunk_start (length bytes) (suc i) more,
      )
    ]
  where
    suc_cases : (i n : ℕ) → i < n → (suc i ≡ n) ⊎ (suc i < n)
    suc_cases i n h = elim (Bool-cases (suc i == n)) [
      | inl e ↦ inl (==→eq _ _ e)
      | inr ne ↦ inr (ground (arith, ne, h))
    ]

free_nothing :
    (rows : List DataRow)
    → All (λ r. All (λ x. chunk_of r.user_id r.note_id r.attachment_id x ≡ false) []) rows
free_nothing [] = tt
free_nothing (r ∷ rows) = (tt, free_nothing rows)

-- When no two rows that the upgrade selects are of one attachment and every one is as long as its row
-- says, the upgrade of a database without chunks succeeds, and its chunks are, row by row, the slices
-- of 5,242,880 bytes of the row's bytes, the last one with what is left, with the indices 0, 1, 2,
-- ….
pub upgrade-eq :
    (table : List OldAttachment)
    → Keyed (selected_rows table)
    → All (λ r. length r.content ≡ r.size_bytes) (selected_rows table)
    → upgrade table [] ≡ ok (migrated migrated_chunk_size_bytes (selected_rows table))
unfolding upgrade
upgrade-eq table keys sizes =
    let rows = selected_rows table in
    let size = migrated_chunk_size_bytes in
    insert_batches-eq size batch_size (omega arith) (length rows + 1) rows 0 [] (omega arith)
    ∙ insert_rows_lem size (omega arith) rows [] sizes keys (free_nothing rows)

All-same_key :
    (P : DataRow → Type 0) (k r : DataRow) (rows : List DataRow)
    → All P rows
    → find (same_key k) rows ≡ some r
    → P r
All-same_key P k r rows = find-All P (same_key k) rows r

-- Under the same conditions, when the upgrade of a database without chunks left the chunks that there
-- are: for a row that it selected, and an attachment of the row's size, `_read_chunk` serves at each
-- index below the number of chunks that slice of the row's bytes, with the etag of the attachment.
pub upgrade-read_chunk :
    (table : List OldAttachment) (k r : DataRow) (a : NoteAttachment) (i : ℕ) (db : Db)
    → Keyed (selected_rows table)
    → All (λ r. length r.content ≡ r.size_bytes) (selected_rows table)
    → find (same_key k) (selected_rows table) ≡ some r
    → upgrade table [] ≡ ok db.attachment_chunks
    → find (is_attachment r.user_id r.note_id r.attachment_id) db.note_attachments ≡ some a
    → a.size_bytes ≡ r.size_bytes
    → i < total_chunks_for_size r.size_bytes
    → run (read_chunk r.user_id r.note_id r.attachment_id (pos i)) db ≡ (
      ok (record {
        content = take chunk_size_bytes (drop (i * chunk_size_bytes) r.content);
        etag = a.etag;
      }),
      db,
    )
unfolding run read_chunk
upgrade-read_chunk table k r a i db keys sizes selected upgraded there size lt =
    let rows = selected_rows table in
    let same : length r.content ≡ r.size_bytes = All-same_key _ k r rows sizes selected in
    let has : Has chunk_size_bytes (migrated chunk_size_bytes rows) r =
      All-same_key _ k r rows (migrated-Has chunk_size_bytes (omega arith) rows keys) selected in
    let stored : db.attachment_chunks ≡ migrated chunk_size_bytes rows =
      ap chunks_in (sym upgraded ∙ upgrade-eq table keys sizes) in
    let lt' : i < total_chunks_for_size (length r.content) =
      subst (λ n. i < total_chunks_for_size n) (sym same) lt in
    let slice = take chunk_size_bytes (drop (i * chunk_size_bytes) r.content) in
    let expected : expected_attachment_chunk_size a.size_bytes (pos i) ≡ ok (length slice) =
      ap (λ n. expected_attachment_chunk_size n (pos i)) (size ∙ sym same)
      ∙ expected_of_index (length r.content) i lt'
      ∙ ap ok (sym (length-slice r.content i lt')) in
    let at = ap (find (at_index r i)) stored ∙ has i (chunk_start (length r.content) i lt') in
    rw (there, expected, at, ==_refl (length slice)) refl
  where
    chunks_in : Result UpgradeError (List AttachmentChunk) → List AttachmentChunk
    chunks_in (ok chunks) = chunks
    chunks_in (err e) = []
