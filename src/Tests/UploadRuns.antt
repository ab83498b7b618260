-- ===== src/Tests/UploadRuns.antt =====
-- Runs of the upload requests of app/notes/uploads.py on small tables.
use super_secure_notes_api.Prelude.{ℕ, ◌≡◌, refl, ◌⊎◌, ◌<◌, ◌≤◌, none, some, [], ◌∷◌, arith}
use super_secure_notes_api.Prelude.Int.{pos, negsuc}
use super_secure_notes_api.Prelude.Result.{ok, err}
use super_secure_notes_api.Prelude.Text.{text_eq, decode_utf8}
use super_secure_notes_api.Db.Table.{remove, update, order_by, select, find, exists}
use super_secure_notes_api.Db.Session.{open_session, run}
use super_secure_notes_api.Parsers.Buffer.{
  expect_magic, read_fixed, read_u8, read_u32_be, read_u64_be, read_length_prefixed_bytes,
  read_length_prefixed_string, at_end,
}
use super_secure_notes_api.Parsers.Ssnt.{parse_note_blob}
use super_secure_notes_api.Notes.ChunkSize.{
  total_chunks_for_size, expected_attachment_chunk_size, expected_chunk_size, chunk_size_bytes,
  invalid_chunk_index,
}
use super_secure_notes_api.Notes.ChunkSize.Sums.{
  chunk_len, sum_chunk_len, sum_chunk_len-total, expected_chunk_size-eq,
  expected_attachment_chunk_size_bounds,
}
use super_secure_notes_api.Notes.Queries.{is_active, is_blob, upload_chunks_of}
use super_secure_notes_api.Notes.Service.{
  attachment_etag_of, compute_upload_etag, recompute_note_sync_metadata, body_or_stored,
  time_or_parsed, or_validation_error, check_if_match,
}
use super_secure_notes_api.Notes.Etag.{compute_etag, compute_composite_etag}
use super_secure_notes_api.Notes.Attachments.{
  store_attachment, promote_upload_chunks, finalize_chunked_upload,
}
use super_secure_notes_api.Uploads.Lookup.{cleaned}
use super_secure_notes_api.Uploads.Delivered.{Delivered, complete_upload-Delivered}
use super_secure_notes_api.Uploads.{
  abort_sessions, get_upload_session, check_upload_session, is_session, check_complete, init_upload,
  upload_chunk, complete_upload,
}
use super_secure_notes_api.Uploads.Invariant.{IsConsistent}
use super_secure_notes_api.Uploads.Complete.{check_complete_iff}
use super_secure_notes_api.Uploads.Requests.{
  init_upload-IsConsistent, upload_chunk-IsConsistent, complete_upload-IsConsistent,
}
use super_secure_notes_api.Db.Models.{Db, UploadChunk}
use super_secure_notes_api.Uploads.Accepted.{is_chunk_at, upload_chunk_accepts}
use super_secure_notes_api.Uploads.Succeeds.{complete_upload_succeeds}
use super_secure_notes_api.Notes.Schemas.{AttachmentUploadResponse}
use super_secure_notes_api.Tests.Samples.{digest, body, note, metadata, session, one_upload}

one_upload-IsConsistent : IsConsistent one_upload
unfolding exists select chunk_len total_chunks_for_size expected_attachment_chunk_size
one_upload-IsConsistent = record {
  ids = (tt, tt);
  owned = (refl, tt);
  sessions = (
    (λ live. record {
      chunk_size = refl;
      expected = refl;
      received = refl;
      fit = ((omega arith, refl), tt);
      distinct = (tt, tt);
    }),
    tt,
  );
}

found_session : find (is_session 1 2 3 7) one_upload.upload_sessions ≡ some session
unfolding find
found_session = refl

check_complete_example :
    check_complete session (upload_chunks_of 7 one_upload) (open_session one_upload)
    ≡ (ok tt, open_session one_upload)
check_complete_example =
    check_complete_iff one_upload 1 2 3 7 session (open_session one_upload) one_upload-IsConsistent
      found_session refl

complete_upload_example :
    IsConsistent (run (complete_upload digest 10 11 12 1 2 3 7 none none) one_upload).1
complete_upload_example =
    complete_upload-IsConsistent digest 10 11 12 1 2 3 7 none none one_upload
      one_upload-IsConsistent

upload_chunk_example :
    IsConsistent (run (upload_chunk 10 11 1 2 3 7 (pos 0) (4 ∷ 5 ∷ 6 ∷ [])) one_upload).1
upload_chunk_example =
    upload_chunk-IsConsistent 10 11 1 2 3 7 (pos 0) (4 ∷ 5 ∷ 6 ∷ []) one_upload
      one_upload-IsConsistent

init_upload_example : IsConsistent (run (init_upload 10 11 8 1 2 3 6_000_000) one_upload).1
init_upload_example =
    init_upload-IsConsistent 10 11 8 1 2 3 6_000_000 one_upload one_upload-IsConsistent

sum_chunk_len_example : sum_chunk_len 12_000_000 (total_chunks_for_size 12_000_000) ≡ 12_000_000
sum_chunk_len_example = sum_chunk_len-total 12_000_000

expected_chunk_size_example :
    expected_chunk_size session (pos 0) ≡ expected_attachment_chunk_size 3 (pos 0)
unfolding total_chunks_for_size
expected_chunk_size_example = expected_chunk_size-eq session (pos 0) refl refl

expected_attachment_chunk_size_example :
    ((i : ℕ) × (n : ℕ) × (negsuc 0 ≡ pos i)
      × (i < total_chunks_for_size 3)
      × (expected_attachment_chunk_size 3 (negsuc 0) ≡ ok n)
      × (1 ≤ n)
      × (n ≤ chunk_size_bytes))
    ⊎ ((expected_attachment_chunk_size 3 (negsuc 0) ≡ err invalid_chunk_index)
        × ((i : ℕ) → negsuc 0 ≡ pos i → total_chunks_for_size 3 ≤ i))
expected_attachment_chunk_size_example = expected_attachment_chunk_size_bounds 3 (negsuc 0)

abbrev receipt : AttachmentUploadResponse
receipt = record {
  attachment_id = 3;
  size_bytes = 3;
  etag = 1 ∷ 2 ∷ 3 ∷ [];
  updated_at = 12;
  note_etag = compute_composite_etag digest (compute_etag digest body) ((3, 1 ∷ 2 ∷ 3 ∷ []) ∷ []);
  content_type = none;
}

abbrev finished : Db
finished = (run (complete_upload digest 10 11 12 1 2 3 7 none none) one_upload).1

completion :
    run (complete_upload digest 10 11 12 1 2 3 7 none none) one_upload ≡ (ok receipt, finished)
unfolding run complete_upload get_upload_session check_upload_session check_complete
    finalize_chunked_upload find select abort_sessions upload_chunks_of order_by attachment_etag_of
    compute_upload_etag store_attachment promote_upload_chunks check_if_match
    recompute_note_sync_metadata parse_note_blob expect_magic read_fixed text_eq read_u8
    read_length_prefixed_string read_length_prefixed_bytes read_u32_be remove update
    compute_composite_etag body_or_stored or_validation_error time_or_parsed at_end read_u64_be
    decode_utf8
completion = refl

complete_upload-Delivered_example :
    Delivered digest 1 2 3 (upload_chunks_of 7 (cleaned 10 1 one_upload)) receipt finished
complete_upload-Delivered_example =
    complete_upload-Delivered digest 10 11 12 1 2 3 7 none none one_upload finished receipt
      one_upload-IsConsistent completion

found_cleaned : find (is_session 1 2 3 7) (cleaned 10 1 one_upload).upload_sessions ≡ some session
unfolding find select abort_sessions
found_cleaned = refl

three_bytes : 3 ≡ chunk_len 3 0
unfolding chunk_len total_chunks_for_size expected_attachment_chunk_size
three_bytes = refl

first_of_one : 0 < total_chunks_for_size 3
unfolding total_chunks_for_size
first_of_one = omega arith

upload_chunk_accepts_example :
    (db' : Db) × (run (upload_chunk 10 11 1 2 3 7 (pos 0) (4 ∷ 5 ∷ 6 ∷ [])) one_upload
      ≡ (ok tt, db'))
    × (c : UploadChunk) × (find (is_chunk_at 7 0) db'.upload_chunks ≡ some c)
    × (c.content ≡ 4 ∷ 5 ∷ 6 ∷ [])
upload_chunk_accepts_example =
    upload_chunk_accepts 10 11 1 2 3 7 0 (4 ∷ 5 ∷ 6 ∷ []) one_upload session one_upload-IsConsistent
      found_cleaned refl (omega arith) first_of_one three_bytes

body_parses : parse_note_blob body ≡ ok metadata
unfolding parse_note_blob expect_magic read_fixed text_eq read_u8 read_length_prefixed_string
    read_length_prefixed_bytes read_u32_be decode_utf8 read_u64_be at_end
body_parses = refl

note_there : find (is_active 1 2) (cleaned 10 1 one_upload).notes ≡ some note
unfolding find select abort_sessions
note_there = refl

body_there :
    find (is_blob 1 2) (cleaned 10 1 one_upload).note_blobs
    ≡ some (record { user_id = 1; note_id = 2; content = body; size_bytes = 65 })
unfolding find select abort_sessions
body_there = refl

complete_upload_succeeds_example :
    (r : AttachmentUploadResponse) × (db' : Db) × (run
        (complete_upload digest 10 11 12 1 2 3 7 none none)
        one_upload
      ≡ (ok r, db'))
complete_upload_succeeds_example =
    complete_upload_succeeds digest 10 11 12 1 2 3 7 none one_upload session note
      (record { user_id = 1; note_id = 2; content = body; size_bytes = 65 }) metadata
      one_upload-IsConsistent found_cleaned refl (omega arith) refl note_there body_there
      body_parses
