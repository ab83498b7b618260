-- ===== src/Shares/Access.antt =====
-- app/shares/router.py: who reads a note that was shared.
use super_secure_notes_api.Prelude.{
  ℕ, ◌≡◌, refl, ap, sym, ◌∙◌, subst, true, false, Option, none, some, List, [], ◌∷◌, arith, ◌==◌,
  Bool-cases, Option-cases, inl, inr,
}
use super_secure_notes_api.Prelude.Int.{ℤ}
use super_secure_notes_api.Prelude.Result.{Result, ok, err}
use super_secure_notes_api.Prelude.Text.{Text, text_eq}
use super_secure_notes_api.Db.Models.{User, NoteShare, Db}
use super_secure_notes_api.Db.Table.{find, remove}
use super_secure_notes_api.Db.Table.Laws.{All, All-remove}
use super_secure_notes_api.Db.Session.{Failure, api_error, run}
use super_secure_notes_api.Users.{find_user_by_email}
use super_secure_notes_api.Shares.{
  shared_note_not_found, is_shared, is_share, is_share_of, get_shared_note_body,
  get_shared_attachment_chunk, list_shared_attachments, remove_shared_note, revoke_share,
}

-- `UniqueConstraint("note_id", "recipient_id")`
abbrev pub Unique : List NoteShare → Type 0
Unique [] = Unit
Unique (x ∷ rows) = All (λ y. is_shared x.recipient_id x.note_id y ≡ false) rows × Unique rows

All-false :
    (recipient note : ℕ) (rows : List NoteShare)
    → All (λ y. is_shared recipient note y ≡ false) rows
    → find (is_shared recipient note) rows ≡ none
unfolding find
All-false recipient note [] h = refl
All-false recipient note (x ∷ rows) h = rw (h.0) (All-false recipient note rows h.1)

the_others :
    (recipient note : ℕ) (y : NoteShare) (rows : List NoteShare)
    → Unique (y ∷ rows)
    → is_shared recipient note y ≡ true
    → All (λ z. is_shared recipient note z ≡ false) rows
the_others recipient note y rows u hit =
    let r : y.recipient_id ≡ recipient = ground arith in
    let n : y.note_id ≡ note = ground arith in
    subst (λ k. All (λ z. is_shared k note z ≡ false) rows) r
      (subst (λ k. All (λ z. is_shared y.recipient_id k z ≡ false) rows) n u.0)

abbrev id_of : Option NoteShare → ℕ
id_of none = 0
id_of (some x) = x.id

-- Once the share that is found is deleted, none is found.
find-removed :
    (recipient note : ℕ) (rows : List NoteShare) (x : NoteShare)
    → Unique rows
    → find (is_shared recipient note) rows ≡ some x
    → find (is_shared recipient note) (remove (is_share x.id) rows) ≡ none
unfolding find remove
find-removed recipient note [] x u = λ h. cc
find-removed recipient note (y ∷ rows) x u = elim (Bool-cases (is_shared recipient note y)) [
  | inl hit ↦ rw hit λ h.
      let same : (y.id == x.id) ≡ true = ground (arith, ap (λ o. id_of o) h) in
      let others = the_others recipient note y rows u hit in
      rw same (All-false recipient note (remove (is_share x.id) rows) (All-remove _ _ rows others))
  | inr miss ↦ rw miss λ h. elim (Bool-cases (y.id == x.id)) [
    | inl gone ↦ rw gone (find-removed recipient note rows x u.1 h)
    | inr kept ↦ rw (kept, miss) (find-removed recipient note rows x u.1 h)
  ]
]

-- Without a share every read is refused.
module _ (user note : ℕ) (db : Db) (e : find (is_shared user note) db.note_shares ≡ none) where
  closed_body :
      (sha256 : List ℕ → Text)
      → run (get_shared_note_body sha256 user note) db ≡ (err (api_error shared_note_not_found), db)
  unfolding run get_shared_note_body
  closed_body sha256 = rw e refl

  closed_list :
      run (list_shared_attachments user note) db ≡ (err (api_error shared_note_not_found), db)
  unfolding run list_shared_attachments
  closed_list = rw e refl

  closed_chunk :
      (att : ℕ) (chunk_index : ℤ)
      → run (get_shared_attachment_chunk user note att chunk_index) db
        ≡ (err (api_error shared_note_not_found), db)
  unfolding run get_shared_attachment_chunk
  closed_chunk att chunk_index = rw e refl

removed :
    (user note : ℕ) (db db' : Db)
    → Unique db.note_shares
    → run (remove_shared_note user note) db ≡ (ok tt, db')
    → find (is_shared user note) db'.note_shares ≡ none
unfolding run remove_shared_note
removed user note db db' u = elim (Option-cases (find (is_shared user note) db.note_shares)) [
  | inl e ↦ rw e (λ h. cc)
  | inr (x, e) ↦ rw e λ h.
      ap (λ (r : Result Failure (Unit {0}) × Db). find (is_shared user note) r.1.note_shares)
        (sym h)
      ∙ find-removed user note db.note_shares x u e
]

-- The owner's query finds the share that the recipient's query finds.
same_share :
    (note owner recipient : ℕ) (rows : List NoteShare) (x : NoteShare)
    → Unique rows
    → find (is_share_of note owner recipient) rows ≡ some x
    → find (is_shared recipient note) rows ≡ some x
unfolding find
same_share note owner recipient [] x u = λ h. cc
same_share note owner recipient (y ∷ rows) x u = elim (Bool-cases (is_shared recipient note y)) [
  | inr miss ↦
      let other : is_share_of note owner recipient y ≡ false = ground arith in
      rw (miss, other) (same_share note owner recipient rows x u.1)
  | inl hit ↦ elim (Bool-cases (is_share_of note owner recipient y)) [
    | inl mine ↦ rw (hit, mine) (λ h. h)
    | inr other ↦
        rw (hit, other)
          λ h. cc (
            same_share note owner recipient rows x u.1 h,
            All-false recipient note rows (the_others recipient note y rows u hit),
          )
  ]
]

revoked :
    (sql_lower lower : Text → Text) (user note : ℕ) (email : Text) (recipient : User) (db db' : Db)
    → Unique db.note_shares
    → find (λ x. text_eq (sql_lower x.email) (lower email)) db.users ≡ some recipient
    → run (revoke_share sql_lower lower user note email) db ≡ (ok tt, db')
    → find (is_shared recipient.id note) db'.note_shares ≡ none
unfolding run revoke_share find_user_by_email
revoked sql_lower lower user note email recipient db db' u known =
    elim (Option-cases (find (is_share_of note user recipient.id) db.note_shares)) [
      | inl e ↦ rw (known, e) (λ h. cc)
      | inr (x, e) ↦
          rw (known, e)
            λ h.
              ap
                (λ (r : Result Failure (Unit {0}) × Db).
                  find (is_shared recipient.id note) r.1.note_shares)
                (sym h)
              ∙ find-removed recipient.id note db.note_shares x u
                  (same_share note user recipient.id db.note_shares x u e)
    ]

-- With at most one share for each note and recipient, after `remove_shared_note` the recipient's reads
-- of the body, of the list of attachments and of every chunk are refused with "Shared note not found.".
pub remove_shared_note_closes :
    (sha256 : List ℕ → Text) (user_id note_id : ℕ) (db db' : Db)
    → Unique db.note_shares
    → run (remove_shared_note user_id note_id) db ≡ (ok tt, db')
    → (run (get_shared_note_body sha256 user_id note_id) db'
        ≡ (err (api_error shared_note_not_found), db'))
      × (run (list_shared_attachments user_id note_id) db'
          ≡ (err (api_error shared_note_not_found), db'))
      × ((attachment_id : ℕ) (chunk_index : ℤ)
          → run (get_shared_attachment_chunk user_id note_id attachment_id chunk_index) db'
            ≡ (err (api_error shared_note_not_found), db'))
remove_shared_note_closes sha256 user note db db' u h =
    let none_left = removed user note db db' u h in
    (
      closed_body user note db' none_left sha256,
      closed_list user note db' none_left,
      λ att i. closed_chunk user note db' none_left att i,
    )

-- With at most one share for each note and recipient, after the owner's `revoke_share` the reads of the
-- recipient with that email are refused in the same way.
pub revoke_share_closes :
    (sha256 : List ℕ → Text) (sql_lower lower : Text → Text) (user_id note_id : ℕ)
    (recipient_email : Text) (recipient : User) (db db' : Db)
    → Unique db.note_shares
    → find (λ x. text_eq (sql_lower x.email) (lower recipient_email)) db.users ≡ some recipient
    → run (revoke_share sql_lower lower user_id note_id recipient_email) db ≡ (ok tt, db')
    → (run (get_shared_note_body sha256 recipient.id note_id) db'
        ≡ (err (api_error shared_note_not_found), db'))
      × (run (list_shared_attachments recipient.id note_id) db'
          ≡ (err (api_error shared_note_not_found), db'))
      × ((attachment_id : ℕ) (chunk_index : ℤ)
          → run (get_shared_attachment_chunk recipient.id note_id attachment_id chunk_index) db'
            ≡ (err (api_error shared_note_not_found), db'))
revoke_share_closes sha256 sql_lower lower user note email recipient db db' u known h =
    let none_left = revoked sql_lower lower user note email recipient db db' u known h in
    (
      closed_body recipient.id note db' none_left sha256,
      closed_list recipient.id note db' none_left,
      λ att i. closed_chunk recipient.id note db' none_left att i,
    )
