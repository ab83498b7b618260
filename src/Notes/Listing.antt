-- ===== src/Notes/Listing.antt =====
-- app/notes/router.py: `list_notes`, with `attachment_stats_for_notes` of app/notes/service.py.
pub mod Stats
use super_secure_notes_api.Prelude.{
  ℕ, ◌+◌, Bool, true, false, ◌&&◌, ◌||◌, Option, none, some, List, [], ◌∷◌, map, ◌==◌,
  if◌then◌else◌,
}
use super_secure_notes_api.Prelude.Text.{Text}
use super_secure_notes_api.Db.Models.{Note, NoteAttachment, SyncState, Db}
use super_secure_notes_api.Db.Table.{select, find, order_by_desc}
use super_secure_notes_api.Db.Session.{Action, ◌>>=◌, pure, query}
use super_secure_notes_api.Notes.Queries.{is_none}

pub record NoteSummaryResponse : Type 0 where
  pub note_id : ℕ
  pub title : Text
  pub updated_at : ℕ
  pub sync_state : SyncState
  pub etag : Text
  pub attachment_count : ℕ
  pub attachments_total_size : ℕ

-- `x.in_(ids)`
unfoldable pub is_in : List ℕ → ℕ → Bool
is_in [] x = false
is_in (id ∷ ids) x = x == id || is_in ids x

-- A row of `select(note_id, func.count(), func.sum(size_bytes))` with `group_by(note_id)`.
pub record Group : Type 0 where
  pub note_id : ℕ
  pub count : ℕ
  pub total_size : ℕ

unfoldable pub add_to_group : NoteAttachment → List Group → List Group
add_to_group x [] = record { note_id = x.note_id; count = 1; total_size = x.size_bytes } ∷ []
add_to_group x (g ∷ groups) =
    let rest = add_to_group x groups in
    if g.note_id == x.note_id
    then record g { count = g.count + 1; total_size = g.total_size + x.size_bytes } ∷ groups
    else g ∷ rest

unfoldable pub group_by_note : List NoteAttachment → List Group
group_by_note [] = []
group_by_note (x ∷ rows) = add_to_group x (group_by_note rows)

-- The dictionary is the list of its groups.
unfoldable pub attachment_stats_for_notes : ℕ → List ℕ → Action (List Group)
attachment_stats_for_notes user_id [] = pure []
attachment_stats_for_notes user_id (id ∷ note_ids) = query λ db.
    group_by_note
      (select (λ x. x.user_id == user_id && is_in (id ∷ note_ids) x.note_id) db.note_attachments)

-- `stats.get(note_id, (0, 0))`
unfoldable pub stats_of : ℕ → List Group → ℕ × ℕ
stats_of note_id stats = elim (find (λ g. g.note_id == note_id) stats) [
  | none ↦ (0, 0)
  | some g ↦ (g.count, g.total_size)
]

abbrev pub to_summary : Note → ℕ × ℕ → NoteSummaryResponse
to_summary x stats = record {
  note_id = x.note_id;
  title = x.title;
  updated_at = x.updated_at;
  sync_state = x.sync_state;
  etag = x.etag;
  attachment_count = stats.0;
  attachments_total_size = stats.1;
}

-- `Note.user_id == user.id`, and `Note.deleted_at.is_(None)` unless deleted notes are asked for.
abbrev pub is_listed : ℕ → Bool → Note → Bool
is_listed user_id include_deleted x =
    x.user_id == user_id && (include_deleted || is_none x.deleted_at)

unfoldable pub owned_notes : ℕ → Bool → Db → List Note
owned_notes user_id include_deleted db =
    order_by_desc (λ x. x.updated_at) (select (is_listed user_id include_deleted) db.notes)

unfoldable pub list_notes : ℕ → Bool → Action (List NoteSummaryResponse)
unfolding owned_notes attachment_stats_for_notes
list_notes user_id include_deleted = do
  notes ← query λ db. owned_notes user_id include_deleted db
  stats ← attachment_stats_for_notes user_id (map (λ x. x.note_id) notes)
  pure (map (λ x. to_summary x (stats_of x.note_id stats)) notes)
