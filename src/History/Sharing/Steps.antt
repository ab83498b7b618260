-- ===== src/History/Sharing/Steps.antt =====
-- app/notes/service.py and app/notes/uploads.py: the constraints on the shares are kept by the requests
-- of owners, which write no shares.
use super_secure_notes_api.Prelude.{
  ℕ, ◌≡◌, refl, sym, ap, ◌∙◌, subst, Bool, true, ◌==◌, Option, none, some, List, ◌∷◌,
}
use super_secure_notes_api.Prelude.Text.{Text}
use super_secure_notes_api.Parsers.Ssnt.{NoteMetadata}
use super_secure_notes_api.Db.Models.{
  Note, NoteBlob, NoteAttachment, NoteShare, UploadSession, UploadChunk, Db,
}
use super_secure_notes_api.Db.Table.{exists, update}
use super_secure_notes_api.Db.Table.Laws.{exists-cons, All, All-map, exists-update_keep}
use super_secure_notes_api.Db.Session.{modify}
use super_secure_notes_api.Notes.Queries.{is_note}
use super_secure_notes_api.History.Sharing.Valid.{IsValidShare, HasValidShares}
use super_secure_notes_api.Db.Session.Within.{
  Within, Within-bind, Within-pure, Within-query, Within-modify,
}
use super_secure_notes_api.Notes.Service.{
  store_blob, store_note, add_note, add_blob, recompute_note_sync_metadata,
}
use super_secure_notes_api.Notes.Reads.{reads_rules}
use super_secure_notes_api.Notes.Bodies.{put_note_body, persist_note_body, soft_delete_note}
use super_secure_notes_api.Notes.Attachments.{
  store_attachment, promote_upload_chunks, finalize_chunked_upload, delete_attachment,
}
use super_secure_notes_api.Uploads.Blind.{
  init_upload-Within, upload_chunk-Within, complete_upload-Within,
}
use super_secure_notes_api.Shares.Access.{Unique}
use super_secure_notes_api.History.{
  Request, put_body, get_body, delete_note, get_chunk, remove_attachment, start_upload, send_chunk,
  finish_upload, handle,
}
use super_secure_notes_api.History.Isolated.{get_note_body-Within, get_attachment_chunk-Within}

abbrev pub P : Db → Type 0
P = HasValidShares

pub valid_on :
    (db db' : Db) (x : NoteShare)
    → db'.users ≡ db.users
    → ((u n : ℕ) → exists (is_note u n) db.notes ≡ true → exists (is_note u n) db'.notes ≡ true)
    → IsValidShare db x
    → IsValidShare db' x
valid_on db db' x users notes v = record {
  of_note = notes _ _ v.of_note;
  of_user = ap (exists (λ u. u.id == x.recipient_id)) users ∙ v.of_user;
  apart = v.apart;
}

-- Notes may be added and changed.
W-notes :
    (f : Db → Db)
    → ((db : Db) → (f db).note_shares ≡ db.note_shares)
    → ((db : Db) → (f db).users ≡ db.users)
    → ((db : Db) (u n : ℕ)
        → exists (is_note u n) db.notes ≡ true
        → exists (is_note u n) (f db).notes ≡ true)
    → Within P (modify f)
W-notes f shares users notes = Within-modify P f λ db h. record {
  unique = subst Unique (sym (shares db)) h.unique;
  valid =
      subst (All (IsValidShare (f db))) (sym (shares db))
        (All-map _ _ db.note_shares (λ x v. valid_on db (f db) x (users db) (notes db) v) h.valid);
}

W-update_notes :
    (p : Note → Bool) (g : Note → Note)
    → ((x : Note) → (g x).user_id ≡ x.user_id)
    → ((x : Note) → (g x).note_id ≡ x.note_id)
    → Within P (modify λ db. record db { notes = update p g db.notes })
W-update_notes p g user note =
    W-notes _ (λ db. refl) (λ db. refl)
      λ db u n h. exists-update_keep (is_note u n) p g db.notes (λ x. rw (user x, note x) refl) ∙ h

-- Another table is written.
W-rest :
    (f : Db → Db)
    → ((db : Db) → (f db).note_shares ≡ db.note_shares)
    → ((db : Db) → (f db).users ≡ db.users)
    → ((db : Db) → (f db).notes ≡ db.notes)
    → Within P (modify f)
W-rest f shares users notes =
    W-notes f shares users λ db u n h. ap (exists (is_note u n)) (notes db) ∙ h

W-new_note : (x : Note) → Within P (modify λ db. record db { notes = x ∷ db.notes })
W-new_note x =
    W-notes _ (λ db. refl) (λ db. refl) (λ db u n h. exists-cons (is_note u n) x db.notes h)

W-add_note : (x : Note) → Within P (add_note x)
unfolding add_note
W-add_note x = search (reads_rules, Within-query, W-new_note)

W-add_blob : (x : NoteBlob) → Within P (add_blob x)
unfolding add_blob
W-add_blob x = search (reads_rules, Within-query, W-rest, refl)

W-store_blob :
    (u n : ℕ) (body : List ℕ) (blob : Option NoteBlob) → Within P (store_blob u n body blob)
unfolding store_blob
W-store_blob u n body none = W-add_blob _
W-store_blob u n body (some blob) = search (W-rest, refl)

W-store_note :
    (u n : ℕ) (body : List ℕ) (m : NoteMetadata) (existing : Option Note)
    → Within P (store_note u n body m existing)
unfolding store_note
W-store_note u n body m none = search (reads_rules, W-add_note, W-store_blob)
W-store_note u n body m (some x) = search (reads_rules, W-update_notes, refl, W-store_blob)

-- The tables of uploads are not read.
blind :
    (db : Db) (sessions : List UploadSession) (chunks : List UploadChunk)
    → P db
    → P (record db { upload_sessions = sessions; upload_chunks = chunks })
blind db sessions chunks h = record {
  unique = h.unique;
  valid = All-map _ _ db.note_shares (λ x v. valid_on db _ x refl (λ u n e. e) v) h.valid;
}

module _ (sha256 : List ℕ → Text) where
  W-recompute :
      (u n : ℕ) (body : Option (List ℕ)) (time : Option ℕ)
      → Within P (recompute_note_sync_metadata sha256 u n body time)
  unfolding recompute_note_sync_metadata
  W-recompute u n body time = search (reads_rules, W-update_notes, refl) depth 20

  W-put_note_body :
      (u n : ℕ) (body : List ℕ) (if_match : Option Text)
      → Within P (put_note_body sha256 u n body if_match)
  unfolding put_note_body persist_note_body
  W-put_note_body u n body if_match = search (reads_rules, W-store_note, W-recompute) depth 30

  W-delete_attachment : (u n att : ℕ) → Within P (delete_attachment sha256 u n att)
  unfolding delete_attachment
  W-delete_attachment u n att = search (reads_rules, W-rest, refl, W-recompute) depth 30

  W-store_attachment :
      (u n att total : ℕ) (etag : Text) (content_type : Option Text) (now : ℕ)
      (existing : Option NoteAttachment)
      → Within P (store_attachment u n att total etag content_type now existing)
  unfolding store_attachment
  W-store_attachment u n att total etag content_type now none = search (reads_rules, W-rest, refl)
  W-store_attachment u n att total etag content_type now (some x) =
      search (reads_rules, W-rest, refl)

  W-promote : (u n att k : ℕ) → Within P (promote_upload_chunks u n att k)
  unfolding promote_upload_chunks
  W-promote u n att k = search (reads_rules, Within-query, W-rest, refl)

  W-finalize :
      (now u n att k total : ℕ) (content_type if_match : Option Text)
      → Within P (finalize_chunked_upload sha256 now u n att k total content_type if_match)
  unfolding finalize_chunked_upload
  W-finalize now u n att k total content_type if_match =
      search (reads_rules, W-store_attachment, W-promote, W-recompute) depth 30

  W-soft_delete_note : (now u n : ℕ) → Within P (soft_delete_note now u n)
  unfolding soft_delete_note
  W-soft_delete_note now u n = search (reads_rules, W-update_notes, W-rest, refl) depth 30

  pub W-handle : (r : Request) → Within P (handle sha256 r)
  W-handle (put_body u n body if_match) = search (Within-bind, Within-pure, W-put_note_body)
  W-handle (get_body u n) = search (Within-bind, Within-pure, get_note_body-Within)
  W-handle (delete_note now u n) = search (Within-bind, Within-pure, W-soft_delete_note)
  W-handle (get_chunk u n att i) = search (Within-bind, Within-pure, get_attachment_chunk-Within)
  W-handle (remove_attachment u n att) = search (Within-bind, Within-pure, W-delete_attachment)
  W-handle (start_upload now now' new_id u n att total) =
      Within-bind P _ _ (init_upload-Within P blind now now' new_id u n att total)
        (λ a. Within-pure P _)
  W-handle (send_chunk now now' u n att k i bytes) =
      Within-bind P _ _ (upload_chunk-Within P blind now now' u n att k i bytes)
        (λ a. Within-pure P _)
  W-handle (finish_upload now now' epoch u n att k content_type if_match) =
      Within-bind P _ _
        (complete_upload-Within P blind sha256 now now' epoch u n att k content_type if_match
          (λ total. W-finalize epoch u n att k total content_type if_match))
        (λ a. Within-pure P _)
