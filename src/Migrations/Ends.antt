-- ===== src/Migrations/Ends.antt =====
-- alembic/versions/007_migrate_attachment_data.py: the loops of the upgrade end.
use super_secure_notes_api.Prelude.{
  ℕ, zero, suc, ◌+◌, ◌-◌, ◌≤◌, ◌<◌, ◌≡◌, ◌≢◌, refl, ap, false, List, [], ◌∷◌, arith, ltb, ◌==◌,
  length, take, drop, length-take, length-drop, Bool-cases, inl, inr, ◌⊎◌,
}
use super_secure_notes_api.Prelude.Result.{Result, ok, err}
use super_secure_notes_api.Db.Models.{AttachmentChunk}
use super_secure_notes_api.Db.Table.{exists}
use super_secure_notes_api.Migrations.{
  DataRow, UpgradeError, out_of_fuel, is_chunk, insert_chunk, and_then, insert_slices, insert_row,
  insert_rows, insert_batches,
}

-- The loop ended by its test.
abbrev pub Ends : Result UpgradeError (List AttachmentChunk) → Type 0
Ends r = r ≢ err out_of_fuel

pub Ends-and_then :
    (r : Result UpgradeError (List AttachmentChunk))
    (f : List AttachmentChunk → Result UpgradeError (List AttachmentChunk))
    → Ends r
    → ((chunks : List AttachmentChunk) → Ends (f chunks))
    → Ends (and_then r f)
Ends-and_then (ok a) f h k = k a
Ends-and_then (err e) f h k = λ same. h (ap again same)
  where
    again : Result UpgradeError (List AttachmentChunk) → Result UpgradeError (List AttachmentChunk)
    again (ok a) = ok a
    again (err e) = err e

Ends-insert_chunk :
    (c : AttachmentChunk) (chunks : List AttachmentChunk) → Ends (insert_chunk c chunks)
unfolding insert_chunk
Ends-insert_chunk c chunks = elim (Bool-cases (exists (is_chunk c) chunks)) [
  | inl taken ↦ rw taken (λ h. cc)
  | inr free ↦ rw free (λ h. cc)
]

pub List-cases : {A : Type 0} (xs : List A) → (xs ≡ []) ⊎ ((y : A) × (ys : List A) × (xs ≡ y ∷ ys))
List-cases [] = inl refl
List-cases (y ∷ ys) = inr (y, ys, refl)

pub length_slice :
    (size position : ℕ) (bytes : List ℕ)
    → 0 < size
    → position < length bytes
    → 0 < length (take size (drop position bytes))
length_slice size position bytes some_ lt =
    omega (arith, length-take size (drop position bytes), length-drop position bytes)

module _ (size limit : ℕ) (some_size : 0 < size) (some_limit : 0 < limit) where
  Ends-insert_slices :
      (fuel : ℕ) (row : DataRow) (position i : ℕ) (chunks : List AttachmentChunk)
      → length row.content - position ≤ fuel
      → Ends (insert_slices size fuel row position i chunks)
  unfolding insert_slices
  Ends-insert_slices zero row position i chunks enough =
      let done : ltb position (length row.content) ≡ false = ground arith in
      rw (done, insert_slices) (λ h. cc)
  Ends-insert_slices (suc fuel) row position i chunks enough =
      elim (Bool-cases (ltb position (length row.content))) [
        | inr done ↦ rw (done, insert_slices) (λ h. cc)
        | inl more ↦
            let grows = length_slice size position row.content some_size (ground arith) in
            rw (more, insert_slices)
              (Ends-and_then _ _ (Ends-insert_chunk _ chunks)
                (λ chunks'. Ends-insert_slices fuel row _ (i + 1) chunks' (omega (arith, grows))))
      ]

  Ends-insert_row :
      (row : DataRow) (chunks : List AttachmentChunk) → Ends (insert_row size row chunks)
  unfolding insert_row
  Ends-insert_row row chunks = elim (Bool-cases (length row.content == row.size_bytes)) [
    | inl same ↦ rw same (Ends-insert_slices (length row.content) row 0 0 chunks (omega arith))
    | inr other ↦ rw other (λ h. cc)
  ]

  Ends-insert_rows :
      (rows : List DataRow) (chunks : List AttachmentChunk) → Ends (insert_rows size rows chunks)
  unfolding insert_rows
  Ends-insert_rows [] chunks = λ h. cc
  Ends-insert_rows (row ∷ rows) chunks =
      Ends-and_then (insert_row size row chunks) (insert_rows size rows)
        (Ends-insert_row row chunks) (Ends-insert_rows rows)

  pub Ends-insert_batches :
      (fuel : ℕ) (rows : List DataRow) (offset : ℕ) (chunks : List AttachmentChunk)
      → length rows - offset < fuel
      → Ends (insert_batches size limit fuel rows offset chunks)
  unfolding insert_batches
  Ends-insert_batches zero rows offset chunks enough = absurd (omega arith)
  Ends-insert_batches (suc fuel) rows offset chunks enough =
      elim (List-cases (take limit (drop offset rows))) [
        | inl done ↦ rw (done, insert_batches) (λ h. cc)
        | inr (row, batch, more) ↦
            let within : offset < length rows = omega (
              arith,
              ap length more,
              length-take limit (drop offset rows),
              length-drop offset rows,
            ) in
            rw (more, insert_batches)
              (Ends-and_then _ _ (Ends-insert_rows (row ∷ batch) chunks) (λ chunks'.
                Ends-insert_batches fuel rows (offset + limit) chunks'
                  (omega (arith, some_limit, within))))
      ]
