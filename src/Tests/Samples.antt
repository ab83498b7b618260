-- ===== src/Tests/Samples.antt =====
-- The rows and blobs that the runs of app/notes and app/parsers start from.
use super_secure_notes_api.Prelude.{ℕ, none, some, List, [], ◌∷◌, ◌++◌}
use super_secure_notes_api.Prelude.Text.{Text, codes}
use super_secure_notes_api.Parsers.Ssnt.{NoteMetadata}
use super_secure_notes_api.Parsers.Ssnv.{VaultHeaderMetadata}
use super_secure_notes_api.Auth.{Settings}
use super_secure_notes_api.Db.Models.{
  Note, NoteShare, RefreshToken, User, UploadSession, Db, empty_db, synced, in_progress,
}

abbrev pub digest : List ℕ → Text
digest bytes = bytes

abbrev eight : ℕ → List ℕ
eight n = 0 ∷ 0 ∷ 0 ∷ 0 ∷ 0 ∷ 0 ∷ 0 ∷ n ∷ []

-- Note 2 with a title of one byte, and that byte.
abbrev pub body_titled : ℕ → List ℕ
body_titled title =
    codes "SSNT"
    ++ (1 ∷ [])
    ++ eight 0
    ++ eight 2
    ++ (0 ∷ 0 ∷ 0 ∷ 1 ∷ title ∷ [])
    ++ eight 50
    ++ eight 60
    ++ (0 ∷ 0 ∷ 0 ∷ 0 ∷ [])
    ++ eight 0
    ++ (0 ∷ 0 ∷ 0 ∷ 1 ∷ 9 ∷ [])
    ++ (0 ∷ 0 ∷ 0 ∷ 1 ∷ 8 ∷ [])

abbrev pub body : List ℕ
body = body_titled 65

abbrev pub metadata : NoteMetadata
metadata = record {
  note_id = 2;
  title = codes "A";
  updated_at = 60;
  attachment_count = 0;
  attachments_total_size = 0;
}

abbrev pub header : List ℕ
header =
    codes "SSNV"
    ++ (1 ∷ 1 ∷ [])
    ++ eight 1
    ++ eight 2
    ++ eight 3
    ++ eight 4
    ++ (0 ∷ 0 ∷ 9 ∷ 9 ∷ [])
    ++ (0 ∷ 0 ∷ 0 ∷ 1 ∷ 9 ∷ [])
    ++ (0 ∷ 0 ∷ 0 ∷ 1 ∷ 8 ∷ [])

abbrev pub header_metadata : VaultHeaderMetadata
header_metadata = record { format_version = 1; public_key = none; algorithm_id = none }

abbrev pub note : Note
note = record {
  user_id = 1;
  note_id = 2;
  title = codes "A";
  updated_at = 60;
  etag = codes "e";
  sync_state = synced;
  deleted_at = none;
}

-- An upload of three bytes, with its one chunk received.
abbrev pub session : UploadSession
session = record {
  id = 7;
  user_id = 1;
  note_id = 2;
  attachment_id = some 3;
  total_size = 3;
  chunk_size = 5_242_880;
  received_chunks = 1;
  expected_chunks = 1;
  status = in_progress;
  expires_at = 100;
}

-- User 1 has note 2 with a body.
abbrev pub one_note : Db
one_note = record empty_db {
  notes = note ∷ [];
  note_blobs = record { user_id = 1; note_id = 2; content = body; size_bytes = 65 } ∷ [];
}

abbrev pub one_upload : Db
one_upload = record one_note {
  upload_sessions = session ∷ [];
  upload_chunks = record { upload_id = 7; chunk_index = 0; content = 1 ∷ 2 ∷ 3 ∷ [] } ∷ [];
}

abbrev pub settings : Settings
settings = record { access_token_ttl_seconds = 900; refresh_token_ttl_days = 30 }

abbrev pub encode : ℕ → ℕ → ℕ → Text
encode sub iat exp = sub ∷ iat ∷ exp ∷ []

abbrev pub user : User
user = record { id = 1; email = codes "a@b"; password_hash = codes "p"; created_at = 0 }

abbrev pub token : RefreshToken
token = record { id = 5; user_id = 1; token_hash = codes "t"; expires_at = 500; revoked_at = none }

-- User 1 has a refresh token that expires at time 500.
abbrev pub one_token : Db
one_token = record empty_db { users = user ∷ []; refresh_tokens = token ∷ [] }

abbrev pub friend : User
friend = record { id = 4; email = codes "c@d"; password_hash = codes "q"; created_at = 0 }

abbrev pub lower_case : Text → Text
lower_case t = t

-- User 1 shares note 2 with user 4.
abbrev pub note_share : NoteShare
note_share = record {
  id = 9;
  note_id = 2;
  owner_id = 1;
  recipient_id = 4;
  wrapped_fek = 7 ∷ [];
  shared_at = 20;
}

abbrev pub one_share : Db
one_share = record one_note { users = user ∷ friend ∷ []; note_shares = note_share ∷ [] }
