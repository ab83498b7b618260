-- ===== src/Migrations/Split.antt =====
-- alembic/versions/007_migrate_attachment_data.py: the loops of the upgrade, one row and one batch at a
-- time.
use super_secure_notes_api.Prelude.{
  ℕ, zero, suc, ◌+◌, ◌-◌, ◌≤◌, ◌<◌, ◌≡◌, refl, sym, ap, ◌∙◌, Bool, true, false, ◌&&◌, List, [], ◌∷◌,
  ◌++◌, arith, ltb, ◌==◌, length, take, drop, length-take, length-drop, drop-drop, take-append-drop,
  nil_of_length, Bool-cases, inl, inr,
}
use mathlib.Core.Path.{fun_ext}
use mathlib.Core.List.{append_assoc, append-nil}
use super_secure_notes_api.Prelude.Result.{Result, ok, err}
use super_secure_notes_api.Db.Models.{AttachmentChunk}
use super_secure_notes_api.Db.Table.{exists}
use super_secure_notes_api.Db.Table.Laws.{All, All-append, All-map, All-both}
use super_secure_notes_api.Notes.Queries.{chunk_of}
use super_secure_notes_api.Migrations.{
  DataRow, UpgradeError, is_chunk, insert_chunk, and_then, slice_of, insert_slices, insert_row,
  insert_rows, insert_batches,
}
use super_secure_notes_api.Migrations.Ends.{List-cases, length_slice}

-- The slices of the bytes that are left, from an index on.
abbrev pub slices : ℕ → ℕ → DataRow → ℕ → List ℕ → List AttachmentChunk
slices size zero row i bytes = []
slices size (suc fuel) row i [] = []
slices size (suc fuel) row i (b ∷ bytes) =
    slice_of row i (take size (b ∷ bytes)) ∷ slices size fuel row (i + 1) (drop size (b ∷ bytes))

slices-suc :
    (size fuel : ℕ) (row : DataRow) (i : ℕ) (xs : List ℕ) (b : ℕ) (bytes : List ℕ)
    → xs ≡ b ∷ bytes
    → slice_of row i (take size xs) ∷ slices size fuel row (i + 1) (drop size xs)
      ≡ slices size (suc fuel) row i xs
slices-suc size fuel row i xs b bytes e = rw e refl

-- The chunks of the row that are there have smaller indices.
abbrev Before : DataRow → ℕ → AttachmentChunk → Type 0
Before row i x = chunk_of row.user_id row.note_id row.attachment_id x ≡ true → x.chunk_index < i

not_taken :
    (row : DataRow) (i : ℕ) (chunk : List ℕ) (chunks : List AttachmentChunk)
    → All (Before row i) chunks
    → exists (is_chunk (slice_of row i chunk)) chunks ≡ false
unfolding exists
not_taken row i chunk [] before = refl
not_taken row i chunk (x ∷ chunks) before =
    let other : is_chunk (slice_of row i chunk) x ≡ false =
      elim (Bool-cases (chunk_of row.user_id row.note_id row.attachment_id x)) [
        | inl mine ↦ let lt = before.0 mine in ground (arith, lt)
        | inr other ↦ rw other refl
      ] in
    rw other (not_taken row i chunk chunks before.1)

drop-length-take : (n : ℕ) (xs : List ℕ) → drop (length (take n xs)) xs ≡ drop n xs
drop-length-take zero xs = refl
drop-length-take (suc n) [] = refl
drop-length-take (suc n) (x ∷ xs) = drop-length-take n xs

module _ (size : ℕ) (some_size : 0 < size) where
  insert_slices_lem :
      (fuel : ℕ) (row : DataRow) (position i : ℕ) (chunks : List AttachmentChunk)
      → length row.content - position ≤ fuel
      → All (Before row i) chunks
      → insert_slices size fuel row position i chunks
        ≡ ok (chunks ++ slices size fuel row i (drop position row.content))
  unfolding insert_slices insert_chunk
  insert_slices_lem zero row position i chunks enough before =
      let done : ltb position (length row.content) ≡ false = ground arith in
      rw (done, insert_slices) (ap ok (sym (append-nil chunks)))
  insert_slices_lem (suc fuel) row position i chunks enough before =
      elim (List-cases (drop position row.content)) [
        | inl done ↦
            let end : ltb position (length row.content) ≡ false =
              ground (arith, ap length done, length-drop position row.content) in
            rw (end, done, insert_slices) (ap ok (sym (append-nil chunks)))
        | inr (b, bytes, more) ↦
            let slice = take size (drop position row.content) in
            let start : ltb position (length row.content) ≡ true =
              ground (arith, ap length more, length-drop position row.content) in
            let grows = length_slice size position row.content some_size (ground arith) in
            let rest : drop (position + length slice) row.content
                ≡ drop size (drop position row.content) =
              sym (drop-drop position (length slice) row.content)
              ∙ drop-length-take size (drop position row.content) in
            let free = not_taken row i slice chunks before in
            let before' : All (Before row (i + 1)) (chunks ++ (slice_of row i slice ∷ [])) =
              All-append _ chunks _ (All-map _ _ chunks (λ x h mine. omega (arith, h mine)) before)
                ((λ _. omega arith), tt) in
            let ih =
              insert_slices_lem fuel row (position + length slice) (i + 1)
                (chunks ++ (slice_of row i slice ∷ [])) (omega (arith, grows)) before' in
            rw (start, insert_slices)
              (rw (free, insert_chunk)
                (ih
                  ∙ ap ok (
                      append_assoc chunks _ _
                      ∙ ap (λ xs. chunks ++ xs)
                          (ap (λ xs. slice_of row i slice ∷ slices size fuel row (i + 1) xs) rest
                            ∙ slices-suc size fuel row i _ b bytes more))))
      ]

  insert_row_lem :
      (row : DataRow) (chunks : List AttachmentChunk)
      → length row.content ≡ row.size_bytes
      → All (λ x. chunk_of row.user_id row.note_id row.attachment_id x ≡ false) chunks
      → insert_row size row chunks
        ≡ ok (chunks ++ slices size (length row.content) row 0 row.content)
  unfolding insert_row
  insert_row_lem row chunks same free =
      let test : (length row.content == row.size_bytes) ≡ true = ground (arith, same) in
      rw test (
        insert_slices_lem (length row.content) row 0 0 chunks (omega arith)
          (All-map _ _ chunks (λ x other mine. cc) free))

-- The attachment of a row.
abbrev pub same_key : DataRow → DataRow → Bool
same_key y x =
    x.user_id == y.user_id && (x.note_id == y.note_id && x.attachment_id == y.attachment_id)

-- No two rows are of one attachment.
abbrev pub Keyed : List DataRow → Type 0
Keyed [] = Unit
Keyed (x ∷ rows) = All (λ y. same_key y x ≡ false) rows × Keyed rows

-- The chunks of some rows.
abbrev pub migrated : ℕ → List DataRow → List AttachmentChunk
migrated size [] = []
migrated size (row ∷ rows) =
    slices size (length row.content) row 0 row.content ++ migrated size rows

pub slices_other :
    (size fuel : ℕ) (row other : DataRow) (i : ℕ) (bytes : List ℕ)
    → same_key other row ≡ false
    → All
        (λ x. chunk_of other.user_id other.note_id other.attachment_id x ≡ false)
        (slices size fuel row i bytes)
slices_other size zero row other i bytes ne = tt
slices_other size (suc fuel) row other i [] ne = tt
slices_other size (suc fuel) row other i (b ∷ bytes) ne =
    (ne, slices_other size fuel row other (i + 1) (drop size (b ∷ bytes)) ne)

module _ (size : ℕ) (some_size : 0 < size) where
  pub insert_rows_lem :
      (rows : List DataRow) (chunks : List AttachmentChunk)
      → All (λ r. length r.content ≡ r.size_bytes) rows
      → Keyed rows
      → All (λ r. All (λ x. chunk_of r.user_id r.note_id r.attachment_id x ≡ false) chunks) rows
      → insert_rows size rows chunks ≡ ok (chunks ++ migrated size rows)
  unfolding insert_rows
  insert_rows_lem [] chunks sizes keys free = ap ok (sym (append-nil chunks))
  insert_rows_lem (row ∷ rows) chunks sizes keys free =
      let mine = slices size (length row.content) row 0 row.content in
      let free' =
        All-map _ _ rows
          (λ r (ne, old).
            All-append _ chunks mine old
              (slices_other size (length row.content) row r 0 row.content ne))
          (All-both _ _ rows keys.0 free.1) in
      rw (insert_row_lem size some_size row chunks sizes.0 free.0) (
        insert_rows_lem rows (chunks ++ mine) sizes.1 keys.1 free'
        ∙ ap ok (append_assoc chunks mine (migrated size rows)))

and_then_assoc :
    (r : Result UpgradeError (List AttachmentChunk))
    (f g : List AttachmentChunk → Result UpgradeError (List AttachmentChunk))
    → and_then r (λ c. and_then (f c) g) ≡ and_then (and_then r f) g
and_then_assoc (ok a) f g = refl
and_then_assoc (err e) f g = refl

-- One batch after another is all rows, one after another.
insert_rows-append :
    (size : ℕ) (xs ys : List DataRow) (chunks : List AttachmentChunk)
    → insert_rows size (xs ++ ys) chunks
      ≡ and_then (insert_rows size xs chunks) (insert_rows size ys)
unfolding insert_rows
insert_rows-append size [] ys chunks = refl
insert_rows-append size (x ∷ xs) ys chunks =
    ap (and_then (insert_row size x chunks)) (fun_ext λ c. insert_rows-append size xs ys c)
    ∙ and_then_assoc (insert_row size x chunks) (insert_rows size xs) (insert_rows size ys)

pub insert_batches-eq :
    (size limit : ℕ)
    → 0 < limit
    → (fuel : ℕ) (rows : List DataRow) (offset : ℕ) (chunks : List AttachmentChunk)
    → length rows - offset < fuel
    → insert_batches size limit fuel rows offset chunks ≡ insert_rows size (drop offset rows) chunks
unfolding insert_batches insert_rows
insert_batches-eq size limit some_limit zero rows offset chunks enough = absurd (omega arith)
insert_batches-eq size limit some_limit (suc fuel) rows offset chunks enough =
    elim (List-cases (take limit (drop offset rows))) [
      | inl done ↦
          let end : drop offset rows ≡ [] =
            nil_of_length (drop offset rows)
              (omega (arith, some_limit, ap length done, length-take limit (drop offset rows))) in
          rw (done, insert_batches) (rw end refl)
      | inr (row, batch, more) ↦
          let within : offset < length rows = omega (
            arith,
            ap length more,
            length-take limit (drop offset rows),
            length-drop offset rows,
          ) in
          rw (more, insert_batches)
            (ap (and_then (insert_rows size (row ∷ batch) chunks)) (
                fun_ext λ c.
                  insert_batches-eq size limit some_limit fuel rows (offset + limit) c
                    (omega (arith, some_limit, within))
                  ∙ ap (λ l. insert_rows size l c) (sym (drop-drop offset limit rows)))
              ∙ sym (insert_rows-append size (row ∷ batch) (drop limit (drop offset rows)) chunks)
              ∙ ap (λ l. insert_rows size l chunks)
                  (ap (λ l. l ++ drop limit (drop offset rows)) (sym more)
                    ∙ take-append-drop limit (drop offset rows)))
    ]
