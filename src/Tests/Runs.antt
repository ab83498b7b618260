-- ===== src/Tests/Runs.antt =====
-- Runs of the handlers of note bodies, of the refresh tokens and of the parsers on small tables and blobs.
use mathlib.Core.List.Perm
use super_secure_notes_api.Prelude.{◌≡◌, refl, ◌↔◌, none, some, [], ◌∷◌, drop, arith}
use super_secure_notes_api.Prelude.Result.{ok, err}
use super_secure_notes_api.Prelude.Text.{codes, text_eq, strip_quotes, decode_utf8}
use super_secure_notes_api.Errors.{conflict, attachment_not_found, note_not_found}
use super_secure_notes_api.Db.Table.{update, order_by, select, find, exists}
use super_secure_notes_api.Db.Session.{run, api_error, integrity_error}
use super_secure_notes_api.Parsers.Buffer.{
  expect_magic, read_fixed, read_u8, read_u32_be, read_u64_be, read_length_prefixed_bytes,
  read_length_prefixed_string, at_end,
}
use super_secure_notes_api.Parsers.Ssnt.{parse_note_blob}
use super_secure_notes_api.Parsers.Ssnt.Format.{IsNoteBlob, parse_note_blob_iff}
use super_secure_notes_api.Parsers.Ssnv.{parse_vault_header}
use super_secure_notes_api.Parsers.Ssnv.Fields.{IsVaultHeader}
use super_secure_notes_api.Parsers.Ssnv.Format.{parse_vault_header_iff}
use super_secure_notes_api.Notes.Queries.{is_blob, in_note, chunk_in_note}
use super_secure_notes_api.Notes.Service.{
  store_note, store_blob, recompute_note_sync_metadata, body_or_stored, time_or_parsed,
  or_validation_error, validate_manifest_consistency, etag_of, check_if_match,
}
use super_secure_notes_api.Notes.Etag.{compute_etag, compute_composite_etag}
use super_secure_notes_api.Notes.Etag.Order.{compute_composite_etag-perm}
use super_secure_notes_api.Notes.Bodies.{
  put_note_body, get_note_body, soft_delete_note, persist_note_body,
}
use super_secure_notes_api.Notes.Bodies.Rollback.{put_note_body_failed}
use super_secure_notes_api.Notes.Attachments.{delete_attachment, list_attachments}
use super_secure_notes_api.Notes.Attachments.Rollback.{delete_attachment_failed}
use super_secure_notes_api.Db.Models.{Db, synced}
use super_secure_notes_api.Notes.Schemas.{NoteUploadResponse}
use super_secure_notes_api.Notes.Bodies.Served.{Served, put_note_body-Served}
use super_secure_notes_api.Notes.Bodies.Deleted.{soft_delete_note_gone, put_note_body_deleted}
use super_secure_notes_api.Auth.{
  check_stored, the_one, create_refresh_token, add_token, invalid_refresh_token, has_hash,
  rotate_refresh_token, logout,
}
use super_secure_notes_api.Auth.Rotation.{rotate_refresh_token_once, logout_revokes}
use super_secure_notes_api.Tests.Samples.{
  settings, encode, token, user, one_token, digest, body, body_titled, metadata, header,
  header_metadata, one_note,
}

stale_etag :
    (run (put_note_body digest 1 2 (body_titled 66) (some (codes "x"))) one_note).0
    ≡ err (api_error (conflict "Note etag does not match."))
unfolding run put_note_body persist_note_body find select check_if_match text_eq strip_quotes
    or_validation_error parse_note_blob expect_magic read_fixed read_u8 read_length_prefixed_string
    read_length_prefixed_bytes read_u32_be decode_utf8 read_u64_be at_end
    validate_manifest_consistency etag_of
stale_etag = refl

put_note_body_example :
    (run (put_note_body digest 1 2 (body_titled 66) (some (codes "x"))) one_note).1 ≡ one_note
put_note_body_example =
    put_note_body_failed digest 1 2 (body_titled 66) (some (codes "x")) one_note
      (api_error (conflict "Note etag does not match.")) stale_etag

missing_attachment :
    (run (delete_attachment digest 1 2 3) one_note).0 ≡ err (api_error attachment_not_found)
unfolding run delete_attachment find
missing_attachment = refl

delete_attachment_example : (run (delete_attachment digest 1 2 3) one_note).1 ≡ one_note
delete_attachment_example =
    delete_attachment_failed digest 1 2 3 one_note (api_error attachment_not_found)
      missing_attachment

parse_note_blob_example : (parse_note_blob body ≡ ok metadata) ↔ IsNoteBlob body metadata
parse_note_blob_example = parse_note_blob_iff body metadata

parse_vault_header_example :
    (parse_vault_header header ≡ ok header_metadata) ↔ IsVaultHeader header header_metadata
parse_vault_header_example = parse_vault_header_iff header header_metadata

compute_composite_etag_example :
    compute_composite_etag digest (codes "b") ((1, codes "x") ∷ (2, codes "y") ∷ [])
    ≡ compute_composite_etag digest (codes "b") ((2, codes "y") ∷ (1, codes "x") ∷ [])
compute_composite_etag_example =
    compute_composite_etag-perm digest (codes "b") (Perm.swap (2, codes "y") (1, codes "x") [])

abbrev rotated : Db
rotated =
    (run (rotate_refresh_token digest encode settings 10 11 12 13 6 (codes "n") (codes "t"))
      one_token).1

rotation :
    run
      (rotate_refresh_token digest encode settings 10 11 12 13 6 (codes "n") (codes "t"))
      one_token
    ≡ (ok (encode 1 13 913, (codes "n", user)), rotated)
unfolding run rotate_refresh_token find exists update text_eq check_stored the_one
    create_refresh_token add_token
rotation = refl

rotate_refresh_token_example :
    run (rotate_refresh_token digest encode settings 20 21 22 23 7 (codes "m") (codes "t")) rotated
    ≡ (err (api_error invalid_refresh_token), rotated)
rotate_refresh_token_example =
    rotate_refresh_token_once digest encode settings 10 11 12 13 6 (codes "n") (codes "t") one_token
      rotated (encode 1 13 913, (codes "n", user)) 20 21 22 23 7 (codes "m") rotation

stored_token : find (has_hash (codes "t")) one_token.refresh_tokens ≡ some token
unfolding find text_eq
stored_token = refl

logout_example :
    run
      (rotate_refresh_token digest encode settings 20 21 22 23 7 (codes "m") (codes "t"))
      (run (logout 10 1) one_token).1
    ≡ (err (api_error invalid_refresh_token), (run (logout 10 1) one_token).1)
logout_example =
    logout_revokes digest encode settings 10 1 20 21 22 23 7 (codes "m") (codes "t") one_token token
      stored_token refl

deletion : (db' : Db) × (run (soft_delete_note 10 1 2) one_note ≡ (ok tt, db'))
unfolding run soft_delete_note find
deletion = (_, refl)

soft_delete_note_example :
    (run (get_note_body digest 1 2) deletion.0 ≡ (err (api_error note_not_found), deletion.0))
    × (run (list_attachments 1 2) deletion.0 ≡ (err (api_error note_not_found), deletion.0))
    × (find (is_blob 1 2) deletion.0.note_blobs ≡ none)
    × (select (in_note 1 2) deletion.0.note_attachments ≡ [])
    × (select (chunk_in_note 1 2) deletion.0.attachment_chunks ≡ [])
soft_delete_note_example = soft_delete_note_gone digest 10 1 2 one_note deletion.0 deletion.1

body_parses : parse_note_blob body ≡ ok metadata
unfolding parse_note_blob expect_magic read_fixed text_eq read_u8 read_length_prefixed_string
    read_length_prefixed_bytes read_u32_be decode_utf8 read_u64_be at_end
body_parses = refl

put_note_body_deleted_example :
    run (put_note_body digest 1 2 body none) deletion.0 ≡ (err integrity_error, deletion.0)
put_note_body_deleted_example =
    put_note_body_deleted digest 10 1 2 83 (drop 1 body) metadata none one_note deletion.0
      deletion.1 body_parses refl refl refl (omega arith)

abbrev reply : NoteUploadResponse
reply = record {
  sync_state = synced;
  updated_at = 60;
  etag = compute_composite_etag digest (compute_etag digest (body_titled 66)) [];
}

abbrev uploaded : Db
uploaded = (run (put_note_body digest 1 2 (body_titled 66) none) one_note).1

upload : run (put_note_body digest 1 2 (body_titled 66) none) one_note ≡ (ok reply, uploaded)
unfolding run put_note_body persist_note_body or_validation_error parse_note_blob expect_magic
    read_fixed text_eq read_u8 read_length_prefixed_string read_length_prefixed_bytes read_u32_be
    decode_utf8 read_u64_be at_end validate_manifest_consistency select check_if_match etag_of find
    update exists order_by store_note store_blob recompute_note_sync_metadata body_or_stored
    time_or_parsed
upload = refl

put_note_body-Served_example : Served digest 1 2 (body_titled 66) reply uploaded
put_note_body-Served_example =
    put_note_body-Served digest 1 2 (body_titled 66) none one_note uploaded reply upload
