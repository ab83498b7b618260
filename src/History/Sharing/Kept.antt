-- ===== src/History/Sharing/Kept.antt =====
-- app/shares/router.py: the constraints on the shares are kept, whatever is requested.
use super_secure_notes_api.Prelude.{
  ℕ, ◌≡◌, ◌≢◌, refl, sym, subst, Bool, true, false, Option, List, [], ◌∷◌, Bool-cases, inl, inr,
}
use super_secure_notes_api.Prelude.Text.{Text}
use super_secure_notes_api.Db.Models.{NoteShare, Db}
use super_secure_notes_api.Db.Table.{exists, remove}
use super_secure_notes_api.Db.Table.Laws.{All, All-map, All-remove}
use super_secure_notes_api.Db.Session.{
  Session, Failure, api_error, integrity_error, multiple_results_found, no_result_found,
  unicode_decode_error, open_session, run,
}
use super_secure_notes_api.Prelude.Result.{Result, ok, err}
use super_secure_notes_api.History.Sharing.Valid.{
  IsValidShare, HasValidShares, Outcome, share_note-Outcome,
}
use super_secure_notes_api.Db.Session.Within.{Within, Within-query, Within-modify, Within-run}
use super_secure_notes_api.Users.{find_user_by_email}
use super_secure_notes_api.Notes.Reads.{reads_rules}
use super_secure_notes_api.Shares.{
  ShareNoteResponse, is_shared, is_share, delete_share, get_recipient_share, share_note,
  revoke_share, remove_shared_note,
}
use super_secure_notes_api.Shares.Access.{Unique}
use super_secure_notes_api.History.Sharing.{
  AnyRequest, on_note, share, revoke, leave, after, after_all,
}
use super_secure_notes_api.History.Sharing.Steps.{P, valid_on, W-handle}

Unique-remove :
    (p : NoteShare → Bool) (rows : List NoteShare) → Unique rows → Unique (remove p rows)
unfolding remove
Unique-remove p [] u = tt
Unique-remove p (x ∷ rows) u = elim (Bool-cases (p x)) [
  | inl gone ↦ rw gone (Unique-remove p rows u.1)
  | inr kept ↦ rw kept (All-remove _ p rows u.0, Unique-remove p rows u.1)
]

W-delete_share : (x : NoteShare) → Within P (delete_share x)
unfolding delete_share
W-delete_share x = Within-modify P _ λ db h. record {
  unique = Unique-remove (is_share x.id) db.note_shares h.unique;
  valid =
      All-map _ _ _ (λ y v. valid_on db _ y refl (λ u n e. e) v)
        (All-remove _ (is_share x.id) db.note_shares h.valid);
}

-- A row that keeps the constraints is added.
added-HasValidShares :
    (db : Db) (x : NoteShare)
    → IsValidShare db x
    → All (λ y. is_shared x.recipient_id x.note_id y ≡ false) db.note_shares
    → P db
    → P (record db { note_shares = x ∷ db.note_shares })
added-HasValidShares db x v alone h = record {
  unique = (alone, h.unique);
  valid = (
    valid_on db _ x refl (λ u n e. e) v,
    All-map _ _ db.note_shares (λ y v. valid_on db _ y refl (λ u n e. e) v) h.valid,
  );
}

Outcome-Within :
    (s : Session) (new_id : ℕ) (out : Result Failure ShareNoteResponse × Session)
    → Outcome s new_id out
    → P s.committed
    → P s.pending
    → P out.1.committed × P out.1.pending
Outcome-Within s new_id (ok r, s') (x, v, alone, same, committed) c p =
    let there : P s'.pending = subst P (sym same) (added-HasValidShares s.pending x v alone p) in
    (subst P (sym committed) there, there)
Outcome-Within s new_id (err (api_error e), s') same c p = rw same (c, p)
Outcome-Within s new_id (err integrity_error, s') (same, taken) c p = rw same (c, p)
Outcome-Within s new_id (err multiple_results_found, s') (same, taken) c p = rw same (c, p)
Outcome-Within s new_id (err no_result_found, s') (same, taken) c p = rw same (c, p)
Outcome-Within s new_id (err unicode_decode_error, s') (same, taken) c p = rw same (c, p)

W-find_user :
    (sql_lower lower : Text → Text) (email : Text)
    → Within P (find_user_by_email sql_lower lower email)
unfolding find_user_by_email
W-find_user sql_lower lower email = Within-query P _

module _ (sha256 : List ℕ → Text) (sql_lower lower : Text → Text)
    (b64decode : Text → Option (List ℕ)) where
  W-share_note :
      (shared_at new_id u n : ℕ) (email fek : Text)
      → Within P (share_note sql_lower lower b64decode shared_at new_id u n email fek)
  W-share_note shared_at new_id u n email fek = record {
    after = λ s c p.
        Outcome-Within s new_id _
          (share_note-Outcome sql_lower lower b64decode shared_at new_id u n email fek s) c p;
  }

  W-revoke_share : (u n : ℕ) (email : Text) → Within P (revoke_share sql_lower lower u n email)
  unfolding revoke_share
  W-revoke_share u n email =
      search (reads_rules, Within-query, W-find_user, W-delete_share) depth 30

  W-remove_shared_note : (u n : ℕ) → Within P (remove_shared_note u n)
  unfolding remove_shared_note get_recipient_share
  W-remove_shared_note u n = search (reads_rules, Within-query, W-delete_share) depth 30

  after-HasValidShares :
      (r : AnyRequest) (db : Db) → P db → P (after sha256 sql_lower lower b64decode r db)
  after-HasValidShares (on_note r) db u = Within-run P _ db (W-handle sha256 r) u
  after-HasValidShares (share shared_at new_id user note email fek) db u =
      Within-run P _ db (W-share_note shared_at new_id user note email fek) u
  after-HasValidShares (revoke user note email) db u =
      Within-run P _ db (W-revoke_share user note email) u
  after-HasValidShares (leave user note) db u = Within-run P _ db (W-remove_shared_note user note) u

all-HasValidShares :
    (sha256 : List ℕ → Text) (sql_lower lower : Text → Text) (b64decode : Text → Option (List ℕ))
    (requests : List AnyRequest) (db : Db)
    → P db
    → P (after_all sha256 sql_lower lower b64decode requests db)
all-HasValidShares sha256 sql_lower lower b64decode [] db u = u
all-HasValidShares sha256 sql_lower lower b64decode (r ∷ requests) db u =
    all-HasValidShares sha256 sql_lower lower b64decode requests _
      (after-HasValidShares sha256 sql_lower lower b64decode r db u)

taken_id :
    (s : Session) (new_id : ℕ) (out : Result Failure ShareNoteResponse × Session)
    → Outcome s new_id out
    → out.0 ≡ err integrity_error
    → exists (is_share new_id) s.pending.note_shares ≡ true
taken_id s new_id (ok r, s') o h = cc
taken_id s new_id (err (api_error e), s') o h = cc
taken_id s new_id (err integrity_error, s') (same, taken) h = taken
taken_id s new_id (err multiple_results_found, s') (same, taken) h = taken
taken_id s new_id (err no_result_found, s') (same, taken) h = taken
taken_id s new_id (err unicode_decode_error, s') (same, taken) h = taken

-- After any requests on bodies, attachments, uploads and shares, on a database whose shares keep the
-- constraints of the table, whether the requests succeed or fail, they keep them: there is at most
-- one share for each note and recipient; the owner of a share has a row for the note; the recipient
-- is a user, and not the owner. A request for a share then, under a new id, never runs into those
-- constraints: it does not fail with an IntegrityError.
pub after_all-HasValidShares :
    (sha256 : List ℕ → Text) (sql_lower lower : Text → Text) (b64decode : Text → Option (List ℕ))
    (requests : List AnyRequest) (db : Db) (shared_at new_id user_id note_id : ℕ)
    (recipient_email wrapped_fek : Text)
    → HasValidShares db
    → exists (is_share new_id) (after_all sha256 sql_lower lower b64decode requests db).note_shares
      ≡ false
    → HasValidShares (after_all sha256 sql_lower lower b64decode requests db)
      × ((run
            (share_note sql_lower lower b64decode shared_at new_id user_id note_id recipient_email
              wrapped_fek)
            (after_all sha256 sql_lower lower b64decode requests db)).0
          ≢ err integrity_error)
unfolding run
after_all-HasValidShares sha256 sql_lower lower b64decode requests db shared_at new_id user note
      email fek h fresh =
    let s : Session = open_session (after_all sha256 sql_lower lower b64decode requests db) in
    (
      all-HasValidShares sha256 sql_lower lower b64decode requests db h,
      λ e.
          let taken =
            taken_id s new_id _
              (share_note-Outcome sql_lower lower b64decode shared_at new_id user note email fek s)
              e in
          cc (fresh, taken),
    )
