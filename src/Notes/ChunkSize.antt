-- ===== src/Notes/ChunkSize.antt =====
-- app/notes/constants.py and the chunk arithmetic of app/notes/service.py and app/notes/uploads.py.
-- `math.ceil(size / CHUNK_SIZE_BYTES)` goes through a float; below 2 ** 31 chunks, more than the
-- INTEGER column `expected_chunks` holds, that float is exact enough to give the rounded-up quotient.
pub mod Sums
use super_secure_notes_api.Prelude.{ℕ, ◌+◌, ◌-◌, ◌/◌, ◌%◌, ltb, leb, ◌==◌, if◌then◌else◌}
use super_secure_notes_api.Prelude.Int.{ℤ, pos, negsuc}
use super_secure_notes_api.Prelude.Result.{Result, ok, err}
use super_secure_notes_api.Errors.{ApiError, validation_error}
use super_secure_notes_api.Db.Models.{UploadSession}

abbrev pub max_body_bytes : ℕ
max_body_bytes = 10_485_760

abbrev pub chunk_size_bytes : ℕ
chunk_size_bytes = 5_242_880

abbrev pub upload_session_ttl_hours : ℕ
upload_session_ttl_hours = 24

abbrev pub invalid_chunk_index : ApiError
invalid_chunk_index = validation_error "Invalid chunk index."

unfoldable pub total_chunks_for_size : ℕ → ℕ
total_chunks_for_size size_bytes = (size_bytes + (chunk_size_bytes - 1)) / chunk_size_bytes

-- A chunk index is a path parameter, and may be negative.
unfoldable pub expected_attachment_chunk_size : ℕ → ℤ → Result ApiError ℕ
expected_attachment_chunk_size size_bytes (negsuc n) = err invalid_chunk_index
expected_attachment_chunk_size size_bytes (pos chunk_index) =
    let total_chunks = total_chunks_for_size size_bytes in
    let remainder = size_bytes % chunk_size_bytes in
    if leb total_chunks chunk_index
    then err invalid_chunk_index
    else if ltb chunk_index (total_chunks - 1)
    then ok chunk_size_bytes
    else ok (if remainder == 0 then chunk_size_bytes else remainder)

-- `_expected_chunk_size`
unfoldable pub expected_chunk_size : UploadSession → ℤ → Result ApiError ℕ
expected_chunk_size session (negsuc n) = err invalid_chunk_index
expected_chunk_size session (pos chunk_index) =
    let remainder = session.total_size % session.chunk_size in
    if leb session.expected_chunks chunk_index
    then err invalid_chunk_index
    else if ltb chunk_index (session.expected_chunks - 1)
    then ok session.chunk_size
    else ok (if remainder == 0 then session.chunk_size else remainder)
