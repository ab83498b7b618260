-- ===== src/History/Sharing/Valid.antt =====
-- app/models.py: the constraints on `note_shares`; app/shares/router.py: what `share_note` comes to.
use super_secure_notes_api.Prelude.{
  ℕ, ◌≡◌, ◌≢◌, ◌⊎◌, refl, true, false, Bool-cases, Option-cases, Option, none, some, List, ◌∷◌,
  arith, inl, inr, ◌==◌, ==_refl,
}
use super_secure_notes_api.Prelude.Result.{Result, ok, err}
use super_secure_notes_api.Prelude.Text.{Text, text_eq}
use super_secure_notes_api.Db.Models.{Note, NoteShare, Db}
use super_secure_notes_api.Db.Table.{find, exists}
use super_secure_notes_api.Db.Table.Laws.{
  find-none_exists, All, find-test, exists_of_find, exists-false,
}
use super_secure_notes_api.Db.Session.{Session, Failure, api_error, ◌>>◌, pure, commit}
use super_secure_notes_api.Users.{find_user_by_email}
use super_secure_notes_api.Notes.Queries.{is_note, is_active}
use super_secure_notes_api.Shares.{
  ShareNoteResponse, is_shared, is_share, decode_wrapped_fek, add_share, share_note,
}
use super_secure_notes_api.Shares.Access.{Unique}

-- The foreign keys of a share, and that no note is shared with its owner.
pub record IsValidShare (db : Db) (x : NoteShare) : Type 0 where
  pub of_note : exists (is_note x.owner_id x.note_id) db.notes ≡ true
  pub of_user : exists (λ u. u.id == x.recipient_id) db.users ≡ true
  pub apart : x.owner_id ≢ x.recipient_id

pub record HasValidShares (db : Db) : Type 0 where
  pub unique : Unique db.note_shares
  pub valid : All (IsValidShare db) db.note_shares

-- What `share_note` in a session returns and leaves.
abbrev pub Outcome : Session → ℕ → Result Failure ShareNoteResponse × Session → Type 0
Outcome s new_id (err (api_error e), s') = s' ≡ s
Outcome s new_id (err e, s') = (s' ≡ s) × (exists (is_share new_id) s.pending.note_shares ≡ true)
Outcome s new_id (ok r, s') =
    let db : Db = s'.pending in
    (x : NoteShare) × IsValidShare s.pending x
    × All (λ y. is_shared x.recipient_id x.note_id y ≡ false) s.pending.note_shares
    × (db ≡ record s.pending { note_shares = x ∷ s.pending.note_shares })
    × (s'.committed ≡ db)

decoded : {A B : Type 0} (r : Result A B) → ((e : A) × (r ≡ err e)) ⊎ ((b : B) × (r ≡ ok b))
decoded (err e) = inl (e, refl)
decoded (ok b) = inr (b, refl)

active-note :
    (u n : ℕ) (rows : List Note) (x : Note)
    → find (is_active u n) rows ≡ some x
    → exists (is_note u n) rows ≡ true
active-note u n rows x h =
    let test = find-test (is_active u n) rows x h in
    exists_of_find (is_active u n) (is_note u n) rows x h (ground (arith, test))

-- The last statements of `share_note`, once its tests are passed.
add_share-Outcome :
    (s : Session) (x : NoteShare) (r : ShareNoteResponse)
    → IsValidShare s.pending x
    → find (is_shared x.recipient_id x.note_id) s.pending.note_shares ≡ none
    → Outcome s x.id ((do add_share x; commit; pure r) s)
unfolding add_share
add_share-Outcome s x r valid free =
    let alone = find-none_exists (is_shared x.recipient_id x.note_id) s.pending.note_shares free in
    elim (Bool-cases (exists (is_share x.id) s.pending.note_shares)) [
      | inl taken ↦ rw taken (refl, taken)
      | inr fresh ↦ rw (fresh, alone) (x, valid, exists-false _ _ alone, refl, refl)
    ]

pub share_note-Outcome :
    (sql_lower lower : Text → Text) (b64decode : Text → Option (List ℕ))
    (shared_at new_id owner note : ℕ) (email fek : Text) (s : Session)
    → Outcome s new_id
        (share_note sql_lower lower b64decode shared_at new_id owner note email fek s)
unfolding share_note find_user_by_email
share_note-Outcome sql_lower lower b64decode shared_at new_id owner note email fek s =
    elim (Option-cases (find (is_active owner note) s.pending.notes)) [
      | inl e ↦ rw e refl
      | inr (n, e) ↦
          elim (Option-cases
            (find (λ x. text_eq (sql_lower x.email) (lower email)) s.pending.users)) [
              | inl unknown ↦ rw (e, unknown) refl
              | inr (recipient, known) ↦ elim (Bool-cases (recipient.id == owner)) [
                | inl self ↦ rw (e, known, self) refl
                | inr other ↦ elim (decoded (decode_wrapped_fek b64decode fek)) [
                  | inl (bad, no_key) ↦ rw (e, known, other, no_key) refl
                  | inr (key, has_key) ↦
                      elim (Option-cases
                        (find (is_shared recipient.id note) s.pending.note_shares)) [
                          | inr (x, there) ↦ rw (e, known, other, has_key, there) refl
                          | inl free ↦
                              rw (e, known, other, has_key, free)
                                (add_share-Outcome s _ _
                                  (record {
                                    of_note = active-note owner note s.pending.notes n e;
                                    of_user =
                                        exists_of_find _ _ _ recipient known (==_refl recipient.id);
                                    apart = ground (arith, other);
                                  })
                                  free)
                        ]
                ]
              ]
            ]
    ]
