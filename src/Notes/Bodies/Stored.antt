-- ===== src/Notes/Bodies/Stored.antt =====
-- app/notes/service.py: what `persist_note_body` leaves in the database when it succeeds.
use super_secure_notes_api.Prelude.{
  ℕ, ◌≡◌, refl, ap, ◌∙◌, false, Option, none, some, List, [], ◌∷◌, arith, map, ==_refl, Bool-cases,
  inl, inr, length,
}
use super_secure_notes_api.Prelude.Result.{Result, ok, err}
use super_secure_notes_api.Prelude.Text.{Text}
use super_secure_notes_api.Parsers.Buffer.{ParseFailure, parse_error}
use super_secure_notes_api.Parsers.Buffer
use super_secure_notes_api.Parsers.Ssnt.{NoteMetadata}
use super_secure_notes_api.Db.Models.{Note, NoteBlob, synced}
use super_secure_notes_api.Db.Table.{select, find, exists, update, order_by}
use super_secure_notes_api.Db.Table.Laws.{assigned, find-update}
use super_secure_notes_api.Db.Session.{Session}
use super_secure_notes_api.Db.Session.Holds.{Holds, Holds-map, Holds-raise_if}
use super_secure_notes_api.Notes.Etag.{compute_etag, compute_composite_etag}
use super_secure_notes_api.Notes.Queries.{is_note, is_active, is_blob, in_note, get_note_blob}
use super_secure_notes_api.Notes.Service.{
  or_validation_error, store_note, store_blob, add_note, add_blob, recompute_note_sync_metadata,
}

pub or_validation_error-ok :
    {A : Type 0} (r : Result ParseFailure A) (a : A) → or_validation_error r ≡ ok a → r ≡ ok a
unfolding or_validation_error
or_validation_error-ok (ok b) a h = ground arith
or_validation_error-ok (err (parse_error e)) a h = cc
or_validation_error-ok (err Buffer.unicode_decode_error) a h = cc

-- The blob of the note has the body, and the notes and the attachments are as they were.
abbrev HasBody : ℕ → ℕ → List ℕ → Session → Unit {0} → Session → Type 0
HasBody user note body s _ s' =
    (blob : NoteBlob) × (find (is_blob user note) s'.pending.note_blobs ≡ some blob)
    × (blob.content ≡ body)
    × (s'.pending.notes ≡ s.pending.notes)
    × (s'.pending.note_attachments ≡ s.pending.note_attachments)

store_blob-HasBody :
    (user note : ℕ) (body : List ℕ) (o : Option NoteBlob) (s : Session)
    → find (is_blob user note) s.pending.note_blobs ≡ o
    → Holds (HasBody user note body s) (store_blob user note body o s)
unfolding store_blob add_blob find
store_blob-HasBody user note body none s found =
    Holds-raise_if (HasBody user note body s) (exists (is_blob user note) s.pending.note_blobs) _ _
      s
      (λ free. (
        record { user_id = user; note_id = note; content = body; size_bytes = length body },
        rw (==_refl user, ==_refl note) refl,
        refl,
        refl,
        refl,
      ))
store_blob-HasBody user note body (some blob) s found = (
  _,
  find-update (is_blob user note) (is_blob user note) _ s.pending.note_blobs (λ x. refl)
        (λ x hit. hit)
      ∙ ap (assigned _) found,
  refl,
  refl,
  refl,
)

-- The blob of the note has the body, the note is active and has the title, and the attachments are
-- as they were.
abbrev pub Stored : ℕ → ℕ → List ℕ → NoteMetadata → Session → Unit {0} → Session → Type 0
Stored user note body m s _ s' =
    (blob : NoteBlob) × (x : Note) × (find (is_blob user note) s'.pending.note_blobs ≡ some blob)
    × (blob.content ≡ body)
    × (find (is_active user note) s'.pending.notes ≡ some x)
    × (x.title ≡ m.title)
    × (s'.pending.note_attachments ≡ s.pending.note_attachments)

no_blob :
    (user note : ℕ) (rows : List NoteBlob)
    → exists (is_blob user note) rows ≡ false
    → find (is_blob user note) rows ≡ none
unfolding exists find
no_blob user note [] h = refl
no_blob user note (x ∷ rows) h = ground (arith, no_blob user note rows)

pub store_note-Stored :
    (user note : ℕ) (body : List ℕ) (m : NoteMetadata) (o : Option Note) (s : Session)
    → find (is_active user note) s.pending.notes ≡ o
    → Holds (Stored user note body m s) (store_note user note body m o s)
unfolding store_note add_note find get_note_blob store_blob add_blob
store_note-Stored user note body m none s found =
    elim (Bool-cases (exists (is_note user note) s.pending.notes)) [
      | inl taken ↦ rw taken tt
      | inr free ↦ elim (Bool-cases (exists (is_blob user note) s.pending.note_blobs)) [
        | inl taken ↦ rw (free, taken) tt
        | inr blobless ↦
            rw (free, blobless)
              (
                record { user_id = user; note_id = note; content = body; size_bytes = length body },
                record {
                  user_id = user;
                  note_id = note;
                  title = m.title;
                  updated_at = m.updated_at;
                  etag = [];
                  sync_state = synced;
                  deleted_at = none;
                },
                rw (==_refl user, ==_refl note) refl,
                refl,
                rw (==_refl user, ==_refl note) refl,
                refl,
                refl,
              )
      ]
    ]
store_note-Stored user note body m (some x) s found =
    let f : Note → Note = λ x. record x { title = m.title; sync_state = synced } in
    let s₁ : Session = record s {
      pending = record s.pending { notes = update (is_note user note) f s.pending.notes };
    } in
    Holds-map (Stored user note body m s) (HasBody user note body s₁)
      (store_blob user note body (find (is_blob user note) s.pending.note_blobs) s₁)
      (store_blob-HasBody user note body (find (is_blob user note) s.pending.note_blobs) s₁ refl)
      λ u s' (blob, there, same, notes, attachments). (
        blob,
        f x,
        there,
        same,
        ap (find (is_active user note)) notes
            ∙ find-update (is_active user note) (is_note user note) f s.pending.notes (λ y. refl)
                (λ y hit. ground arith)
            ∙ ap (assigned f) found,
        refl,
        attachments,
      )

-- The note's etag and time are those of its body and its attachments.
abbrev pub After : (List ℕ → Text) → ℕ → ℕ → List ℕ → Session → Note → Text × ℕ → Session → Type 0
After sha256 user note body s x r s' =
    (r.0
      ≡ compute_composite_etag sha256 (compute_etag sha256 body) (
          map (λ a. (a.attachment_id, a.etag))
            (order_by (λ a. a.attachment_id)
              (select (in_note user note) s.pending.note_attachments))))
    × (find (is_active user note) s'.pending.notes
        ≡ some (record x { etag = r.0; updated_at = r.1; sync_state = synced }))
    × (s'.pending.note_blobs ≡ s.pending.note_blobs)
    × (s'.pending.note_attachments ≡ s.pending.note_attachments)

pub recompute-Composite :
    (sha256 : List ℕ → Text) (user note : ℕ) (body : List ℕ) (time : ℕ) (s : Session) (x : Note)
    → find (is_active user note) s.pending.notes ≡ some x
    → Holds
        (After sha256 user note body s x)
        (recompute_note_sync_metadata sha256 user note (some body) (some time) s)
unfolding recompute_note_sync_metadata
recompute-Composite sha256 user note body time s x found = rw found (
  refl,
  find-update (is_active user note) (is_note user note) _ s.pending.notes (λ y. refl)
        (λ y hit. ground arith)
      ∙ ap (assigned _) found,
  refl,
  refl,
)
