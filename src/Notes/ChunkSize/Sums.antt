-- ===== src/Notes/ChunkSize/Sums.antt =====
-- app/notes/service.py and app/notes/uploads.py: the sizes of the chunks of an attachment.
use super_secure_notes_api.Prelude.{
  ℕ, zero, suc, ◌+◌, ◌*◌, ◌≤◌, ◌<◌, ◌≡◌, refl, subst, sym, ap, ◌∙◌, ◌⊎◌, inl, inr, arith, leb,
  Bool-cases,
}
use super_secure_notes_api.Prelude.Int.{ℤ, pos, negsuc}
use super_secure_notes_api.Prelude.Result.{ok, err}
use super_secure_notes_api.Db.Models.{UploadSession}
use super_secure_notes_api.Notes.ChunkSize.{
  chunk_size_bytes, invalid_chunk_index, total_chunks_for_size, expected_attachment_chunk_size,
  expected_chunk_size,
}

-- The size of the chunk at an index, 0 where there is none.
unfoldable pub chunk_len : ℕ → ℕ → ℕ
chunk_len size_bytes i = elim (expected_attachment_chunk_size size_bytes (pos i)) [
  | ok n ↦ n
  | err _ ↦ 0
]

-- The sizes of the first `n` chunks together.
pub sum_chunk_len : ℕ → ℕ → ℕ
unfolding chunk_len
sum_chunk_len size_bytes zero = 0
sum_chunk_len size_bytes (suc n) = sum_chunk_len size_bytes n + chunk_len size_bytes n

pub sum_chunk_len-suc :
    (size_bytes n : ℕ)
    → sum_chunk_len size_bytes (suc n) ≡ sum_chunk_len size_bytes n + chunk_len size_bytes n
unfolding sum_chunk_len
sum_chunk_len-suc size_bytes n = refl

pub sum_chunk_len-zero : (size_bytes : ℕ) → sum_chunk_len size_bytes 0 ≡ 0
unfolding sum_chunk_len
sum_chunk_len-zero size_bytes = refl

pub chunk_len_full :
    (size_bytes i : ℕ)
    → suc i < total_chunks_for_size size_bytes
    → chunk_len size_bytes i ≡ chunk_size_bytes
unfolding chunk_len expected_attachment_chunk_size
chunk_len_full size_bytes i h = ground arith

pub chunk_len_last :
    (size_bytes i : ℕ)
    → suc i ≡ total_chunks_for_size size_bytes
    → chunk_len size_bytes i + i * chunk_size_bytes ≡ size_bytes
unfolding chunk_len expected_attachment_chunk_size total_chunks_for_size
chunk_len_last size_bytes i h = ground arith

pub chunk_len_le :
    (size_bytes i : ℕ)
    → i < total_chunks_for_size size_bytes
    → chunk_len size_bytes i ≤ chunk_size_bytes
unfolding chunk_len expected_attachment_chunk_size
chunk_len_le size_bytes i h = ground arith

-- Every chunk starts within the content.
pub chunk_start :
    (size_bytes i : ℕ) → i < total_chunks_for_size size_bytes → i * chunk_size_bytes < size_bytes
unfolding total_chunks_for_size
chunk_start size_bytes i h = omega arith

sum_full :
    (size_bytes n : ℕ)
    → suc n ≤ total_chunks_for_size size_bytes
    → sum_chunk_len size_bytes n ≡ n * chunk_size_bytes
unfolding sum_chunk_len
sum_full size_bytes zero h = omega arith
sum_full size_bytes (suc n) h =
    omega (arith, sum_full size_bytes n (omega arith), chunk_len_full size_bytes n h)

sum_all :
    (size_bytes n : ℕ)
    → n ≡ total_chunks_for_size size_bytes
    → sum_chunk_len size_bytes n ≡ size_bytes
unfolding sum_chunk_len
sum_all size_bytes zero h = unfold total_chunks_for_size in omega arith
sum_all size_bytes (suc n) h =
    omega (arith, sum_full size_bytes n (omega arith), chunk_len_last size_bytes n h)

-- The expected sizes of all chunks of an attachment add up to its size.
pub sum_chunk_len-total :
    (size_bytes : ℕ) → sum_chunk_len size_bytes (total_chunks_for_size size_bytes) ≡ size_bytes
sum_chunk_len-total size_bytes = sum_all size_bytes (total_chunks_for_size size_bytes) refl

-- An index has an expected size exactly if it is not negative and below the number of chunks, and
-- the size is then at least 1 and at most `CHUNK_SIZE_BYTES`; any other index is refused with the
-- error "Invalid chunk index.".
pub expected_attachment_chunk_size_bounds :
    (size_bytes : ℕ) (chunk_index : ℤ)
    → ((i : ℕ) × (n : ℕ) × (chunk_index ≡ pos i)
        × (i < total_chunks_for_size size_bytes)
        × (expected_attachment_chunk_size size_bytes chunk_index ≡ ok n)
        × (1 ≤ n)
        × (n ≤ chunk_size_bytes))
      ⊎ ((expected_attachment_chunk_size size_bytes chunk_index ≡ err invalid_chunk_index)
          × ((i : ℕ) → chunk_index ≡ pos i → total_chunks_for_size size_bytes ≤ i))
unfolding expected_attachment_chunk_size chunk_len
expected_attachment_chunk_size_bounds size_bytes (negsuc n) = inr (refl, λ i e. cc)
expected_attachment_chunk_size_bounds size_bytes (pos i) =
    elim (Bool-cases (leb (total_chunks_for_size size_bytes) i)) [
      | inl out ↦ inr (rw out refl, λ j e. ground arith)
      | inr within ↦
          inl (
            i,
            chunk_len size_bytes i,
            refl,
            ground arith,
            ground arith,
            ground arith,
            ground arith,
          )
    ]

-- A session that was made as `init_upload` makes it expects the sizes that a download checks.
pub expected_chunk_size-eq :
    (session : UploadSession) (chunk_index : ℤ)
    → session.chunk_size ≡ chunk_size_bytes
    → session.expected_chunks ≡ total_chunks_for_size session.total_size
    → expected_chunk_size session chunk_index
      ≡ expected_attachment_chunk_size session.total_size chunk_index
unfolding expected_chunk_size expected_attachment_chunk_size
expected_chunk_size-eq session (negsuc n) h k = refl
expected_chunk_size-eq session (pos i) h k = simp (h, k)

chunk_len_of :
    (size_bytes i n : ℕ)
    → expected_attachment_chunk_size size_bytes (pos i) ≡ ok n
    → chunk_len size_bytes i ≡ n
unfolding chunk_len
chunk_len_of size_bytes i n h = rw (h, chunk_len) refl

pub expected_of_index :
    (size_bytes i : ℕ)
    → i < total_chunks_for_size size_bytes
    → expected_attachment_chunk_size size_bytes (pos i) ≡ ok (chunk_len size_bytes i)
expected_of_index size_bytes i lt =
    elim (expected_attachment_chunk_size_bounds size_bytes (pos i)) [
      | inl (j, n, _, _, size, _, _) ↦ size ∙ ap ok (sym (chunk_len_of size_bytes i n size))
      | inr (_, out) ↦ absurd (omega (arith, out i refl, lt))
    ]

-- The same with the size named.
pub expected_cases :
    (size_bytes : ℕ) (chunk_index : ℤ)
    → ((i : ℕ) × (chunk_index ≡ pos i)
        × (i < total_chunks_for_size size_bytes)
        × (expected_attachment_chunk_size size_bytes chunk_index ≡ ok (chunk_len size_bytes i)))
      ⊎ (expected_attachment_chunk_size size_bytes chunk_index ≡ err invalid_chunk_index)
expected_cases size_bytes chunk_index =
    elim (expected_attachment_chunk_size_bounds size_bytes chunk_index) [
      | inl (i, n, at, lt, size, _, _) ↦ inl (
        i,
        at,
        lt,
        size
            ∙ ap ok (
                sym (
                  chunk_len_of size_bytes i n
                    (subst (λ c. expected_attachment_chunk_size size_bytes c ≡ ok n) at size))),
      )
      | inr (bad, _) ↦ inr bad
    ]
