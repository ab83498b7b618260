-- ===== src/Tests/ShareRuns.antt =====
-- Runs of the sharing routes on small tables.
use super_secure_notes_api.Prelude.{ℕ, ◌≡◌, refl, some, []}
use super_secure_notes_api.Prelude.Int.{ℤ}
use super_secure_notes_api.Prelude.Result.{ok, err}
use super_secure_notes_api.Prelude.Text.{codes, text_eq}
use super_secure_notes_api.Db.Models.{Db}
use super_secure_notes_api.Db.Table.{find, remove}
use super_secure_notes_api.Db.Session.{api_error, run}
use super_secure_notes_api.Users.{find_user_by_email}
use super_secure_notes_api.Shares.{
  shared_note_not_found, get_shared_note_body, list_shared_attachments, get_shared_attachment_chunk,
  remove_shared_note, revoke_share,
}
use super_secure_notes_api.Shares.Access.{remove_shared_note_closes, revoke_share_closes}
use super_secure_notes_api.Shares.{share_note, decode_wrapped_fek}
use super_secure_notes_api.Shares.Access.{Unique}
use super_secure_notes_api.Shares.Grant.{share_note_grants}
use super_secure_notes_api.Db.Table.{exists}
use super_secure_notes_api.Notes.Schemas.{ContentResponse}
use super_secure_notes_api.Notes.Bodies.{get_note_body}
use super_secure_notes_api.Notes.Attachments.{get_attachment_chunk}
use super_secure_notes_api.Prelude.{Option, List}
use super_secure_notes_api.Prelude.Text.{Text}
use super_secure_notes_api.Tests.Samples.{digest, lower_case, friend, one_share}

abbrev unshared : Db
unshared = record one_share { note_shares = [] }

removal : run (remove_shared_note 4 2) one_share ≡ (ok tt, unshared)
unfolding run remove_shared_note find remove
removal = refl

remove_shared_note_example :
    (run (get_shared_note_body digest 4 2) unshared
      ≡ (err (api_error shared_note_not_found), unshared))
    × (run (list_shared_attachments 4 2) unshared
        ≡ (err (api_error shared_note_not_found), unshared))
    × ((attachment_id : ℕ) (chunk_index : ℤ)
        → run (get_shared_attachment_chunk 4 2 attachment_id chunk_index) unshared
          ≡ (err (api_error shared_note_not_found), unshared))
remove_shared_note_example =
    remove_shared_note_closes digest 4 2 one_share unshared (tt, tt) removal

friend_known :
    find (λ x. text_eq (lower_case x.email) (lower_case (codes "c@d"))) one_share.users
    ≡ some friend
unfolding find text_eq
friend_known = refl

revocation :
    run (revoke_share lower_case lower_case 1 2 (codes "c@d")) one_share ≡ (ok tt, unshared)
unfolding run revoke_share find_user_by_email find remove text_eq
revocation = refl

revoke_share_example :
    (run (get_shared_note_body digest 4 2) unshared
      ≡ (err (api_error shared_note_not_found), unshared))
    × (run (list_shared_attachments 4 2) unshared
        ≡ (err (api_error shared_note_not_found), unshared))
    × ((attachment_id : ℕ) (chunk_index : ℤ)
        → run (get_shared_attachment_chunk 4 2 attachment_id chunk_index) unshared
          ≡ (err (api_error shared_note_not_found), unshared))
revoke_share_example =
    revoke_share_closes digest lower_case lower_case 1 2 (codes "c@d") friend one_share unshared
      (tt, tt) friend_known revocation

abbrev decoder : Text → Option (List ℕ)
decoder t = some t

abbrev granted : Db
granted =
    (run (share_note lower_case lower_case decoder 30 9 1 2 (codes "c@d") (codes "k")) unshared).1

sharing :
    run (share_note lower_case lower_case decoder 30 9 1 2 (codes "c@d") (codes "k")) unshared
    ≡ (ok (record { share_id = 9; recipient_email = codes "c@d"; shared_at = 30 }), granted)
unfolding run share_note find_user_by_email find exists text_eq decode_wrapped_fek
sharing = refl

share_note_grants_example :
    Unique granted.note_shares
    × ((c : ContentResponse)
        → run (get_note_body digest 1 2) granted ≡ (ok c, granted)
        → run (get_shared_note_body digest 4 2) granted ≡ (ok c, granted))
    × ((attachment_id : ℕ) (chunk_index : ℤ) (c : ContentResponse)
        → run (get_attachment_chunk 1 2 attachment_id chunk_index) granted ≡ (ok c, granted)
        → run (get_shared_attachment_chunk 4 2 attachment_id chunk_index) granted ≡ (ok c, granted))
share_note_grants_example =
    share_note_grants digest lower_case lower_case decoder 30 9 1 2 (codes "c@d") (codes "k") friend
      unshared granted (record { share_id = 9; recipient_email = codes "c@d"; shared_at = 30 }) tt
      friend_known sharing
