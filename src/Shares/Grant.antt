-- ===== src/Shares/Grant.antt =====
-- app/shares/router.py: the tables after `share_note`, and what the recipient reads then.
use super_secure_notes_api.Prelude.{
  ℕ, ◌≡◌, refl, Option, some, List, ◌==◌, ==_refl, Bool-cases, Option-cases, inl, inr,
}
use super_secure_notes_api.Prelude.Int.{ℤ}
use super_secure_notes_api.Prelude.Result.{ok}
use super_secure_notes_api.Prelude.Text.{Text, text_eq}
use super_secure_notes_api.Db.Models.{User, NoteShare, Db}
use super_secure_notes_api.Db.Table.{find, exists}
use super_secure_notes_api.Db.Table.Laws.{exists-false}
use super_secure_notes_api.Db.Session.{Session, open_session, run}
use super_secure_notes_api.Db.Session.Holds.{Holds, Holds-run, Holds-raise_if, Holds-lift}
use super_secure_notes_api.Notes.Schemas.{ContentResponse}
use super_secure_notes_api.Notes.Queries.{is_active, is_blob}
use super_secure_notes_api.Notes.Bodies.{get_note_body}
use super_secure_notes_api.Notes.Attachments.{get_attachment_chunk, or_api_error}
use super_secure_notes_api.Users.{find_user_by_email}
use super_secure_notes_api.Shares.{
  ShareNoteResponse, is_shared, is_share, get_shared_note_body, get_shared_attachment_chunk,
  decode_wrapped_fek, share_note,
}
use super_secure_notes_api.Shares.Access.{Unique}

-- The recipient's query finds a share of the owner, and the shares are still unique.
abbrev Granted : ℕ → ℕ → ℕ → ShareNoteResponse → Db → Type 0
Granted owner note recipient r db =
    (x : NoteShare) × (find (is_shared recipient note) db.note_shares ≡ some x)
    × (x.owner_id ≡ owner)
    × Unique db.note_shares

share_note-Granted :
    (sql_lower lower : Text → Text) (b64decode : Text → Option (List ℕ))
    (shared_at new_id owner note : ℕ) (email fek : Text) (recipient : User) (db : Db)
    → Unique db.note_shares
    → find (λ x. text_eq (sql_lower x.email) (lower email)) db.users ≡ some recipient
    → Holds
        (λ r s. Granted owner note recipient.id r s.committed)
        (share_note sql_lower lower b64decode shared_at new_id owner note email fek
          (open_session db))
unfolding share_note find_user_by_email find
share_note-Granted sql_lower lower b64decode shared_at new_id owner note email fek recipient db u
      known =
    let R : ShareNoteResponse → Session → Type 0 =
      λ r s. Granted owner note recipient.id r s.committed in
    elim (Option-cases (find (is_active owner note) db.notes)) [
      | inl e ↦ rw e tt
      | inr (n, e) ↦
          rw (e, known)
            (Holds-raise_if R (recipient.id == owner) _ _ (open_session db) λ _.
              Holds-lift R (or_api_error (decode_wrapped_fek b64decode fek)) _ (open_session db)
                λ wrapped _.
                  elim (Option-cases (find (is_shared recipient.id note) db.note_shares)) [
                    | inr (x, there) ↦ rw there tt
                    | inl free ↦
                        rw free (elim (Bool-cases (exists (is_share new_id) db.note_shares)) [
                          | inl taken ↦ rw taken tt
                          | inr fresh ↦
                              elim (Bool-cases
                                (exists (is_shared recipient.id note) db.note_shares)) [
                                  | inl taken ↦ rw (fresh, taken) tt
                                  | inr alone ↦
                                      rw (fresh, alone)
                                        (
                                          record {
                                            id = new_id;
                                            note_id = note;
                                            owner_id = owner;
                                            recipient_id = recipient.id;
                                            wrapped_fek = wrapped;
                                            shared_at = shared_at;
                                          },
                                          rw (==_refl recipient.id, ==_refl note) refl,
                                          refl,
                                          (
                                            exists-false (is_shared recipient.id note)
                                                db.note_shares alone,
                                            u,
                                          ),
                                        )
                                ]
                        ])
                  ])
    ]

read_body :
    (sha256 : List ℕ → Text) (owner note recipient : ℕ) (x : NoteShare) (db : Db)
    (c : ContentResponse)
    → find (is_shared recipient note) db.note_shares ≡ some x
    → x.owner_id ≡ owner
    → run (get_note_body sha256 owner note) db ≡ (ok c, db)
    → run (get_shared_note_body sha256 recipient note) db ≡ (ok c, db)
unfolding run get_note_body get_shared_note_body
read_body sha256 owner note recipient x db c found mine =
    elim (Option-cases (find (is_active owner note) db.notes)) [
      | inl e ↦ rw e (λ h. cc)
      | inr (n, e) ↦ elim (Option-cases (find (is_blob owner note) db.note_blobs)) [
        | inl b ↦ rw (e, b) (λ h. cc)
        | inr (blob, b) ↦ rw (e, found, mine, b) (λ h. h)
      ]
    ]

read_chunk_as :
    (sha256 : List ℕ → Text) (owner note recipient att : ℕ) (i : ℤ) (x : NoteShare) (db : Db)
    (c : ContentResponse)
    → find (is_shared recipient note) db.note_shares ≡ some x
    → x.owner_id ≡ owner
    → run (get_attachment_chunk owner note att i) db ≡ (ok c, db)
    → run (get_shared_attachment_chunk recipient note att i) db ≡ (ok c, db)
unfolding run get_attachment_chunk get_shared_attachment_chunk
read_chunk_as sha256 owner note recipient att i x db c found mine =
    elim (Option-cases (find (is_active owner note) db.notes)) [
      | inl e ↦ rw e (λ h. cc)
      | inr (n, e) ↦ rw (e, found, mine) (λ h. h)
    ]

-- With at most one share for each note and recipient, after `share_note` there is still at most one, and
-- the recipient reads the body and every chunk that the owner reads, with the same etags.
pub share_note_grants :
    (sha256 : List ℕ → Text) (sql_lower lower : Text → Text) (b64decode : Text → Option (List ℕ))
    (shared_at new_id user_id note_id : ℕ) (recipient_email wrapped_fek : Text) (recipient : User)
    (db db' : Db) (r : ShareNoteResponse)
    → Unique db.note_shares
    → find (λ x. text_eq (sql_lower x.email) (lower recipient_email)) db.users ≡ some recipient
    → run
        (share_note sql_lower lower b64decode shared_at new_id user_id note_id recipient_email
          wrapped_fek)
        db
      ≡ (ok r, db')
    → Unique db'.note_shares
      × ((c : ContentResponse)
          → run (get_note_body sha256 user_id note_id) db' ≡ (ok c, db')
          → run (get_shared_note_body sha256 recipient.id note_id) db' ≡ (ok c, db'))
      × ((attachment_id : ℕ) (chunk_index : ℤ) (c : ContentResponse)
          → run (get_attachment_chunk user_id note_id attachment_id chunk_index) db' ≡ (ok c, db')
          → run (get_shared_attachment_chunk recipient.id note_id attachment_id chunk_index) db'
            ≡ (ok c, db'))
share_note_grants sha256 sql_lower lower b64decode shared_at new_id user note email fek recipient db
      db' r u known h =
    let (x, found, mine, unique) =
      Holds-run (Granted user note recipient.id)
        (share_note sql_lower lower b64decode shared_at new_id user note email fek) db db' r
        (share_note-Granted sql_lower lower b64decode shared_at new_id user note email fek recipient
          db u known)
        h in
    (
      unique,
      λ c. read_body sha256 user note recipient.id x db' c found mine,
      λ att i c. read_chunk_as sha256 user note recipient.id att i x db' c found mine,
    )
