-- ===== src/Errors.antt =====
-- app/errors.py: `APIError`, the exception that `api_error_handler` of app/main.py turns into a
-- response, with its messages.
use Prim.Native.String.{String}
use super_secure_notes_api.Prelude.{ℕ}
use super_secure_notes_api.Prelude.Int.{ℤ}
use super_secure_notes_api.Parsers.Buffer.{ParseError}

-- A message is a literal, the text of a `ParseError`, or the f-string of `upload_chunk` with the
-- index and the size in it.
pub data Message : Type 0 where
  text : String → Message
  parse_message : ParseError → Message
  chunk_must_be : ℤ → ℕ → Message

pub record ApiError : Type 0 where
  pub status_code : ℕ
  pub error : String
  pub message : Message

abbrev pub error_of : ℕ → String → String → ApiError
error_of status error message = record {
  status_code = status;
  error = error;
  message = text message;
}

abbrev pub validation_error : String → ApiError
validation_error = error_of 400 "validation_error"

abbrev pub note_not_found : ApiError
note_not_found = error_of 404 "note_not_found" "Note not found."

abbrev pub body_not_found : ApiError
body_not_found = error_of 404 "note_not_found" "Note body not found."

abbrev pub attachment_not_found : ApiError
attachment_not_found = error_of 404 "attachment_not_found" "Attachment not found."

abbrev pub conflict : String → ApiError
conflict = error_of 409 "conflict"
