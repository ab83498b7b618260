-- ===== src/History/Kept.antt =====
-- app/notes/service.py: operations that keep every body.
use super_secure_notes_api.Prelude.{
  ℕ, ◌≡◌, refl, sym, ap, ◌∙◌, Bool, Option, none, some, List, [], ◌∷◌, Option-cases, inl, inr,
  arith, if◌then◌else◌,
}
use super_secure_notes_api.Prelude.Text.{Text}
use super_secure_notes_api.Db.Models.{synced, Note, NoteBlob, NoteAttachment, Db}
use super_secure_notes_api.Db.Table.{find, update}
use super_secure_notes_api.Db.Session.{modify}
use super_secure_notes_api.Db.Session.Within.{Within, Within-modify, Within-query}
use super_secure_notes_api.Notes.Queries.{is_note, is_active, is_blob}
use super_secure_notes_api.Db.Table.Laws.{find-update_found}
use super_secure_notes_api.Notes.Reads.{reads_rules}
use super_secure_notes_api.Notes.Attachments.{
  store_attachment, promote_upload_chunks, finalize_chunked_upload, delete_attachment,
}
use super_secure_notes_api.Notes.Service.{recompute_note_sync_metadata}
use super_secure_notes_api.History.Bodies.{body_of, bodies_of}

-- Assignments that keep which note is active.
find-update-none :
    (q p : Note → Bool) (f : Note → Note) (rows : List Note)
    → ((x : Note) → q (f x) ≡ q x)
    → find q rows ≡ none
    → find q (update p f rows) ≡ none
unfolding find update
find-update-none q p f [] keep h = refl
find-update-none q p f (x ∷ rows) keep h = ground (arith, keep x, find-update-none q p f rows keep)

-- A note keeps its body, whoever is written.
module _ (user' note' : ℕ) (old : Db) where
  abbrev P : Db → Type 0
  P db = bodies_of db user' note' ≡ bodies_of old user' note'

  Keeps-notes :
      (p : Note → Bool) (f : Note → Note)
      → ((x : Note) → is_active user' note' (f x) ≡ is_active user' note' x)
      → (db : Db) → P db
      → P (record db { notes = update p f db.notes })
  Keeps-notes p f keep db h = elim (Option-cases (find (is_active user' note') db.notes)) [
    | inl absent ↦
        ap (λ o. body_of o blob)
          (find-update-none (is_active user' note') p f db.notes keep absent ∙ sym absent)
        ∙ h
    | inr (x, active) ↦
        ap (λ o. body_of o blob)
          (find-update_found (is_active user' note') p f db.notes x keep active)
        ∙ same (if p x then f x else x) x blob
        ∙ ap (λ o. body_of o blob) (sym active)
        ∙ h
  ]
    where
      blob : Option NoteBlob
      blob = find (is_blob user' note') db.note_blobs

      same : (x y : Note) (b : Option NoteBlob) → body_of (some x) b ≡ body_of (some y) b
      same x y none = refl
      same x y (some b) = refl

  -- What is written is none of the note's row and its blob.
  Keeps-rest :
      (f : Db → Db)
      → ((db : Db) → (f db).notes ≡ db.notes)
      → ((db : Db) → (f db).note_blobs ≡ db.note_blobs)
      → Within P (modify f)
  Keeps-rest f hn hb = Within-modify P f λ db h.
      ap
        (λ l.
          body_of (find (is_active user' note') l) (find (is_blob user' note') (f db).note_blobs))
        (hn db)
      ∙ ap (λ l. body_of (find (is_active user' note') db.notes) (find (is_blob user' note') l))
          (hb db)
      ∙ h

  W-assign :
      (user note : ℕ) (etag : Text) (t : ℕ)
      → Within P (
          modify λ db. record db {
            notes =
                update
                  (is_note user note)
                  (λ x. record x { etag = etag; updated_at = t; sync_state = synced })
                  db.notes;
          })
  W-assign user note etag t = Within-modify P _ (Keeps-notes _ _ (λ x. refl))

  module _ (sha256 : List ℕ → Text) where
    W-recompute :
        (user note : ℕ) (body : Option (List ℕ)) (time : Option ℕ)
        → Within P (recompute_note_sync_metadata sha256 user note body time)
    unfolding recompute_note_sync_metadata
    W-recompute user note body time = search (reads_rules, W-assign) depth 20

    pub W-delete_attachment :
        (user note att : ℕ) → Within P (delete_attachment sha256 user note att)
    unfolding delete_attachment
    W-delete_attachment user note att = search (reads_rules, W-recompute, Keeps-rest, refl) depth 30

    W-store_attachment :
        (user note att total : ℕ) (etag : Text) (content_type : Option Text) (now : ℕ)
        (existing : Option NoteAttachment)
        → Within P (store_attachment user note att total etag content_type now existing)
    unfolding store_attachment
    W-store_attachment user note att total etag content_type now none =
        search (reads_rules, Keeps-rest, refl)
    W-store_attachment user note att total etag content_type now (some x) =
        search (reads_rules, Keeps-rest, refl)

    W-promote : (user note att k : ℕ) → Within P (promote_upload_chunks user note att k)
    unfolding promote_upload_chunks
    W-promote user note att k = search (reads_rules, Within-query, Keeps-rest, refl)

    pub W-finalize :
        (now user note att k total : ℕ) (content_type if_match : Option Text)
        → Within P (finalize_chunked_upload sha256 now user note att k total content_type if_match)
    unfolding finalize_chunked_upload
    W-finalize now user note att k total content_type if_match =
        search (reads_rules, W-store_attachment, W-promote, W-recompute) depth 30
