-- ===== src/Parsers/Ssnt.antt =====
-- app/parsers/ssnt.py: the note body format SSNT v1.
pub mod Format
use super_secure_notes_api.Prelude.{ℕ, List, [], ◌∷◌, ◌==◌, if◌then◌else◌}
use super_secure_notes_api.Prelude.Result.{Result, ok, err}
use super_secure_notes_api.Prelude.Text.{Text, codes}
use super_secure_notes_api.Parsers.Buffer.{
  ByteReader, ParseFailure, Read, ◌>>=◌, ◌>>◌, pure, raise, parse_error, empty_blob, trailing_bytes,
  unsupported_version, byte_reader, at_end, read_fixed, unpack_be, read_u8, read_u32_be,
  read_u64_be, read_length_prefixed_bytes, read_length_prefixed_string, expect_magic,
}

abbrev pub ssnt_magic : List ℕ
ssnt_magic = codes "SSNT"

abbrev pub note_id_length : ℕ
note_id_length = 16

-- A UUID is its integer, which its 16 bytes spell in big-endian order.
pub record NoteMetadata : Type 0 where
  pub note_id : ℕ
  pub title : Text
  pub updated_at : ℕ
  pub attachment_count : ℕ
  pub attachments_total_size : ℕ

unfoldable pub read_note_id : Read ℕ
read_note_id = do raw ← read_fixed note_id_length; pure (unpack_be 0 raw)

check_version : Read (Unit {0})
check_version = do
  version ← read_u8
  if version == 1 then pure tt else raise (unsupported_version version)

-- The reads of `parse_note_blob`, in order.
read_note : Read NoteMetadata
unfolding read_note_id check_version
read_note = do
  expect_magic ssnt_magic
  check_version
  note_id ← read_note_id
  title ← read_length_prefixed_string
  _ ← read_u64_be
  updated_at ← read_u64_be
  attachment_count ← read_u32_be
  attachments_total_size ← read_u64_be
  _ ← read_length_prefixed_bytes
  _ ← read_length_prefixed_bytes
  pure (record {
    note_id = note_id;
    title = title;
    updated_at = updated_at;
    attachment_count = attachment_count;
    attachments_total_size = attachments_total_size;
  })

-- The test for trailing bytes.
whole_blob : Result ParseFailure (NoteMetadata × ByteReader) → Result ParseFailure NoteMetadata
whole_blob (ok (metadata, reader)) =
    if at_end reader then ok metadata else err (parse_error trailing_bytes)
whole_blob (err e) = err e

unfoldable pub parse_note_blob : List ℕ → Result ParseFailure NoteMetadata
unfolding read_note whole_blob byte_reader
parse_note_blob [] = err (parse_error empty_blob)
parse_note_blob (b ∷ bytes) = whole_blob (read_note (byte_reader (b ∷ bytes)))
