-- ===== src/Migrations.antt =====
-- alembic/versions/007_migrate_attachment_data.py: the bytes of the column `note_attachments.data` are
-- split into rows of `attachment_chunks`. The batches and the slices are loops on fuel: the number of
-- rows, and the number of bytes, since each round takes one row or one byte at least.
pub mod Ends
pub mod Split
pub mod Upgraded
use super_secure_notes_api.Prelude.{
  ℕ, zero, suc, ◌+◌, Bool, true, false, not, ◌&&◌, Option, none, some, List, [], ◌∷◌, ◌++◌, ltb,
  ◌==◌, length, take, drop, if◌then◌else◌,
}
use super_secure_notes_api.Prelude.Result.{Result, ok, err}
use super_secure_notes_api.Db.Models.{AttachmentChunk}
use super_secure_notes_api.Db.Table.{exists, order_by}
use super_secure_notes_api.Notes.Queries.{chunk_of}

abbrev pub migrated_chunk_size_bytes : ℕ
migrated_chunk_size_bytes = 5_242_880

abbrev pub batch_size : ℕ
batch_size = 100

-- A row of `note_attachments` before the migration 008; `content` is the column `data`, which may be
-- NULL.
pub record OldAttachment : Type 0 where
  pub user_id : ℕ
  pub note_id : ℕ
  pub attachment_id : ℕ
  pub content : Option (List ℕ)
  pub size_bytes : ℕ

-- A row that the SELECT gives.
pub record DataRow : Type 0 where
  pub user_id : ℕ
  pub note_id : ℕ
  pub attachment_id : ℕ
  pub content : List ℕ
  pub size_bytes : ℕ

-- `RuntimeError`, with the lengths in its message, or a primary key that is taken. The last is no
-- error of the source: a loop that ran out of the fuel of the model.
pub data UpgradeError : Type 0 where
  size_mismatch : ℕ → ℕ → ℕ → UpgradeError
  key_taken : UpgradeError
  out_of_fuel : UpgradeError

-- `WHERE data IS NOT NULL`
unfoldable pub with_data : List OldAttachment → List DataRow
with_data [] = []
with_data (x ∷ rows) =
    let rest = with_data rows in
    elim x.content [
      | none ↦ rest
      | some bytes ↦
          record {
            user_id = x.user_id;
            note_id = x.note_id;
            attachment_id = x.attachment_id;
            content = bytes;
            size_bytes = x.size_bytes;
          }
          ∷ rest
    ]

-- `ORDER BY user_id, note_id, attachment_id`, as stable sorts by one key after another.
unfoldable pub selected_rows : List OldAttachment → List DataRow
selected_rows table =
    order_by (λ x. x.user_id)
      (order_by (λ x. x.note_id) (order_by (λ x. x.attachment_id) (with_data table)))

abbrev pub is_chunk : AttachmentChunk → AttachmentChunk → Bool
is_chunk c x = chunk_of c.user_id c.note_id c.attachment_id x && x.chunk_index == c.chunk_index

-- `INSERT INTO attachment_chunks`
unfoldable pub insert_chunk :
    AttachmentChunk → List AttachmentChunk → Result UpgradeError (List AttachmentChunk)
insert_chunk c chunks =
    if exists (is_chunk c) chunks then err key_taken else ok (chunks ++ (c ∷ []))

abbrev pub and_then :
    {A B : Type 0} → Result UpgradeError A → (A → Result UpgradeError B) → Result UpgradeError B
and_then (ok a) f = f a
and_then (err e) f = err e

abbrev pub slice_of : DataRow → ℕ → List ℕ → AttachmentChunk
slice_of row chunk_index chunk = record {
  user_id = row.user_id;
  note_id = row.note_id;
  attachment_id = row.attachment_id;
  chunk_index = chunk_index;
  content = chunk;
}

module _ (size : ℕ) where
  -- `while pos < len(data):`, with slices of `size` bytes.
  unfoldable pub insert_slices :
      ℕ → DataRow → ℕ → ℕ → List AttachmentChunk → Result UpgradeError (List AttachmentChunk)
  insert_slices zero row position chunk_index chunks =
      if ltb position (length row.content) then err out_of_fuel else ok chunks
  insert_slices (suc fuel) row position chunk_index chunks =
      elim (ltb position (length row.content)) [
        | false ↦ ok chunks
        | true ↦
            let chunk = take size (drop position row.content) in
            and_then (insert_chunk (slice_of row chunk_index chunk) chunks)
              (insert_slices fuel row (position + length chunk) (chunk_index + 1))
      ]

  unfoldable pub insert_row :
      DataRow → List AttachmentChunk → Result UpgradeError (List AttachmentChunk)
  insert_row row chunks =
      if length row.content == row.size_bytes
      then insert_slices (length row.content) row 0 0 chunks
      else err (size_mismatch row.attachment_id (length row.content) row.size_bytes)

  -- `for row in rows:`
  unfoldable pub insert_rows :
      List DataRow → List AttachmentChunk → Result UpgradeError (List AttachmentChunk)
  insert_rows [] chunks = ok chunks
  insert_rows (row ∷ rows) chunks = and_then (insert_row row chunks) (insert_rows rows)

-- `while True:`, with batches of `limit` rows. `rows` is what the SELECT gives with no LIMIT and no
-- OFFSET; no round changes it.
unfoldable pub insert_batches :
    ℕ → ℕ → ℕ → List DataRow → ℕ → List AttachmentChunk → Result UpgradeError (List AttachmentChunk)
insert_batches size limit zero rows offset chunks = err out_of_fuel
insert_batches size limit (suc fuel) rows offset chunks = elim (take limit (drop offset rows)) [
  | [] ↦ ok chunks
  | row ∷ batch ↦
      and_then (insert_rows size (row ∷ batch) chunks)
        (insert_batches size limit fuel rows (offset + limit))
]

unfoldable pub upgrade :
    List OldAttachment → List AttachmentChunk → Result UpgradeError (List AttachmentChunk)
upgrade table chunks =
    insert_batches migrated_chunk_size_bytes batch_size (length (selected_rows table) + 1)
      (selected_rows table) 0 chunks

-- `DELETE FROM attachment_chunks`
unfoldable pub downgrade : List AttachmentChunk → List AttachmentChunk
downgrade chunks = []
