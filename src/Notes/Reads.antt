-- ===== src/Notes/Reads.antt =====
-- app/notes/service.py: the steps of the operations that read, and write nothing.
use Prim.Native.String.{String}
use super_secure_notes_api.Prelude.{ℕ, Option, none, some, List}
use super_secure_notes_api.Prelude.Int.{ℤ}
use super_secure_notes_api.Prelude.Text.{Text}
use super_secure_notes_api.Errors.{ApiError}
use super_secure_notes_api.Parsers.Ssnt.{NoteMetadata}
use super_secure_notes_api.Db.Models.{Db}
use super_secure_notes_api.Db.Session.Within.{
  Within, Within-bind, Within-pure, Within-raise_if, Within-lift, Within-query, Within-commit,
  Within-modify,
}
use super_secure_notes_api.Notes.Queries.{
  get_note_attachment_chunk, list_note_attachments, get_active_note, get_note_blob,
  get_note_attachment, attachment_stats,
}
use super_secure_notes_api.Notes.Service.{
  compute_upload_etag, body_or_stored, time_or_parsed, or_raise, check_if_match,
  validate_manifest_consistency,
}

module _ (P : Db → Type 0) where
  pub W-or_raise : {A : Type 0} (o : Option A) (e : ApiError) → Within P (or_raise o e)
  W-or_raise none e = record { after = λ s c p. (c, p) }
  W-or_raise (some a) e = record { after = λ s c p. (c, p) }

  pub W-check_if_match :
      (etag if_match : Option Text) (message : String)
      → Within P (check_if_match etag if_match message)
  unfolding check_if_match
  W-check_if_match none m message = Within-pure P tt
  W-check_if_match (some e) none message = Within-pure P tt
  W-check_if_match (some e) (some m) message = Within-raise_if P _ _

  pub W-validate :
      (m : NoteMetadata) (count total : ℕ) → Within P (validate_manifest_consistency m count total)
  unfolding validate_manifest_consistency
  W-validate m count total = search (Within-bind, Within-raise_if)

  pub W-get_active_note : (u n : ℕ) → Within P (get_active_note u n)
  unfolding get_active_note
  W-get_active_note u n = Within-query P _

  pub W-get_note_blob : (u n : ℕ) → Within P (get_note_blob u n)
  unfolding get_note_blob
  W-get_note_blob u n = Within-query P _

  pub W-get_note_attachment : (u n att : ℕ) → Within P (get_note_attachment u n att)
  unfolding get_note_attachment
  W-get_note_attachment u n att = Within-query P _

  pub W-attachment_stats : (u n : ℕ) → Within P (attachment_stats u n)
  unfolding attachment_stats
  W-attachment_stats u n = Within-query P _

  pub W-list_note_attachments : (u n : ℕ) → Within P (list_note_attachments u n)
  unfolding list_note_attachments
  W-list_note_attachments u n = Within-query P _

  pub W-body : (u n : ℕ) (given : Option (List ℕ)) → Within P (body_or_stored u n given)
  unfolding body_or_stored
  W-body u n (some b) = Within-pure P b
  W-body u n none = search (Within-bind, Within-pure, W-get_note_blob, W-or_raise)

  pub W-time : (bytes : List ℕ) (given : Option ℕ) → Within P (time_or_parsed bytes given)
  unfolding time_or_parsed
  W-time bytes (some t) = Within-pure P t
  W-time bytes none = search (Within-bind, Within-pure, Within-lift)

  pub W-compute_upload_etag :
      (sha256 : List ℕ → Text) (k : ℕ) → Within P (compute_upload_etag sha256 k)
  unfolding compute_upload_etag
  W-compute_upload_etag sha256 k = Within-query P _

  pub W-get_note_attachment_chunk :
      (u n att : ℕ) (i : ℤ) → Within P (get_note_attachment_chunk u n att i)
  unfolding get_note_attachment_chunk
  W-get_note_attachment_chunk u n att i = Within-query P _

pub ruleset reads_rules = (
  Within-bind, Within-pure, Within-raise_if, Within-lift, Within-commit, W-or_raise,
  W-check_if_match, W-validate, W-get_active_note, W-get_note_blob, W-get_note_attachment,
  W-attachment_stats, W-list_note_attachments, W-body, W-time, W-compute_upload_etag,
  W-get_note_attachment_chunk,
)
