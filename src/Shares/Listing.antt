-- ===== src/Shares/Listing.antt =====
-- app/shares/router.py: `list_shared_notes`.
pub mod Complete
pub mod Joined
use super_secure_notes_api.Prelude.{ℕ, Bool, ◌&&◌, List, map, ◌==◌}
use super_secure_notes_api.Prelude.Text.{Text}
use super_secure_notes_api.Db.Models.{User, Note, NoteShare, Db}
use super_secure_notes_api.Db.Table.{select, join, order_by_desc}
use super_secure_notes_api.Db.Session.{Action, ◌>>=◌, pure, query}
use super_secure_notes_api.Notes.Queries.{is_none}

pub record SharedNoteSummaryResponse : Type 0 where
  pub note_id : ℕ
  pub title : Text
  pub updated_at : ℕ
  pub etag : Text
  pub owner_email : Text
  pub owner_id : ℕ
  pub shared_at : ℕ

-- A row of the two joins.
abbrev pub Row : Type 0
Row = (NoteShare × Note) × User

-- `(NoteShare.owner_id == Note.user_id) & (NoteShare.note_id == Note.note_id)`
abbrev pub of_note : NoteShare → Note → Bool
of_note share x = share.owner_id == x.user_id && share.note_id == x.note_id

abbrev pub of_owner : NoteShare × Note → User → Bool
of_owner row u = row.0.owner_id == u.id

abbrev pub is_received : ℕ → Row → Bool
is_received user_id row = row.0.0.recipient_id == user_id && is_none row.0.1.deleted_at

abbrev pub to_shared_summary : Row → SharedNoteSummaryResponse
to_shared_summary row = record {
  note_id = row.0.0.note_id;
  title = row.0.1.title;
  updated_at = row.0.1.updated_at;
  etag = row.0.1.etag;
  owner_email = row.1.email;
  owner_id = row.0.0.owner_id;
  shared_at = row.0.0.shared_at;
}

unfoldable pub shared_rows : ℕ → Db → List Row
unfolding join
shared_rows user_id db =
    order_by_desc (λ row. row.0.0.shared_at)
      (select (is_received user_id) (join of_owner (join of_note db.note_shares db.notes) db.users))

unfoldable pub list_shared_notes : ℕ → Action (List SharedNoteSummaryResponse)
list_shared_notes user_id = do rows ← query (shared_rows user_id); pure (map to_shared_summary rows)
