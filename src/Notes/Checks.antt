-- ===== src/Notes/Checks.antt =====
-- app/notes/service.py: what is known after the checks on the manifest and on `If-Match`.
use Prim.Native.String.{String}
use super_secure_notes_api.Prelude.{
  ℕ, ◌≡◌, not, Option, none, some, ◌==◌, ==→eq, Bool-cases, inl, inr,
}
use super_secure_notes_api.Prelude.Text.{Text, text_eq, strip_quotes}
use super_secure_notes_api.Parsers.Ssnt.{NoteMetadata}
use super_secure_notes_api.Db.Session.{Session, Action, ◌>>◌}
use super_secure_notes_api.Db.Session.Holds.{Holds, Holds-raise_if}
use super_secure_notes_api.Notes.Service.{check_if_match, validate_manifest_consistency}

module _ {B : Type 0} (R : B → Session → Type 0) where
  pub Holds-validate :
      (m : NoteMetadata) (count total : ℕ) (k : Action B) (s : Session)
      → (m.attachment_count ≡ count → m.attachments_total_size ≡ total → Holds R (k s))
      → Holds R ((validate_manifest_consistency m count total >> k) s)
  unfolding validate_manifest_consistency
  Holds-validate m count total k s h = elim (Bool-cases (m.attachment_count == count)) [
    | inr other ↦ rw other tt
    | inl same_count ↦ elim (Bool-cases (m.attachments_total_size == total)) [
      | inr other ↦ rw (same_count, other) tt
      | inl same_total ↦
          rw (same_count, same_total) (h (==→eq _ _ same_count) (==→eq _ _ same_total))
    ]
  ]

  pub Holds-check_if_match :
      (etag if_match : Option Text) (message : String) (k : Action B) (s : Session)
      → Holds R (k s)
      → Holds R ((check_if_match etag if_match message >> k) s)
  unfolding check_if_match
  Holds-check_if_match none m message k s h = h
  Holds-check_if_match (some e) none message k s h = h
  Holds-check_if_match (some e) (some m) message k s h =
      Holds-raise_if R (not (text_eq e (strip_quotes m))) _ k s (λ _. h)
