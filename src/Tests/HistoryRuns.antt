-- ===== src/Tests/HistoryRuns.antt =====
-- Runs of requests one after another, of the lists of notes, of the migration of attachments and of the
-- query of the database's URL, on small tables.
use mathlib.Core.List.{Memᴰ}
use super_secure_notes_api.Prelude.{
  ℕ, ◌≡◌, ◌≢◌, refl, true, false, none, some, List, [], ◌∷◌, map, take, drop, arith, length, ◌*◌,
  ◌<◌,
}
use super_secure_notes_api.Prelude.Int.{pos}
use super_secure_notes_api.Prelude.Result.{ok, err}
use super_secure_notes_api.Prelude.Text.{codes, text_eq}
use super_secure_notes_api.Db.Models.{NoteAttachment, Db, empty_db}
use super_secure_notes_api.Db.Table.{find, exists, remove, order_by, insert_by}
use super_secure_notes_api.Db.Table.Laws.{All}
use super_secure_notes_api.Db.Session.{run, integrity_error}
use super_secure_notes_api.Notes.ChunkSize.{chunk_size_bytes, total_chunks_for_size}
use super_secure_notes_api.Notes.Queries.{attachment_stats, is_attachment}
use super_secure_notes_api.Notes.Attachments.{read_chunk}
use super_secure_notes_api.Notes.Isolation.{SameNote}
use super_secure_notes_api.Notes.Listing.{to_summary, owned_notes, list_notes}
use super_secure_notes_api.Notes.Listing.Stats.{stats_in, list_notes-eq}
use super_secure_notes_api.Uploads.Invariant.{IsConsistent}
use super_secure_notes_api.Migrations.{
  OldAttachment, DataRow, out_of_fuel, migrated_chunk_size_bytes, with_data, selected_rows, upgrade,
  insert_batches, insert_rows, insert_row, insert_slices, insert_chunk,
}
use super_secure_notes_api.Migrations.Split.{migrated, same_key, Keyed}
use super_secure_notes_api.Migrations.Upgraded.{upgrade_ends, upgrade-eq, upgrade-read_chunk}
use super_secure_notes_api.History.{Request, put_body, get_body, delete_note, start_upload, serve}
use super_secure_notes_api.History.Bodies.{Trace, bodies_of}
use super_secure_notes_api.History.Isolated.{serve-SameNote}
use super_secure_notes_api.History.Consistent.{empty_db-IsConsistent, serve-IsConsistent}
use super_secure_notes_api.History.Refined.{serve-Trace}
use super_secure_notes_api.History.Sharing.{AnyRequest, on_note, share, revoke, leave, after_all}
use super_secure_notes_api.History.Sharing.Valid.{HasValidShares}
use super_secure_notes_api.History.Sharing.Kept.{after_all-HasValidShares}
use super_secure_notes_api.Users.{find_user_by_email}
use super_secure_notes_api.Shares.{
  is_share, share_note, revoke_share, remove_shared_note, add_share, delete_share,
  decode_wrapped_fek,
}
use super_secure_notes_api.Notes.Bodies.{soft_delete_note}
use super_secure_notes_api.Config.{Query, normalize_query}
use super_secure_notes_api.Config.Query.{Normalized, normalize_query-Normalized}
use super_secure_notes_api.Shares.Listing.{SharedNoteSummaryResponse, list_shared_notes}
use super_secure_notes_api.Shares.Listing.Joined.{Listed, list_shared_notes-Listed}
use super_secure_notes_api.Shares.Listing.Complete.{list_shared_notes_complete}
use super_secure_notes_api.Tests.Samples.{
  note, note_share, user, lower_case, digest, body, one_note, one_share, one_upload,
}

-- A body is put, read, and deleted with its note, and an upload starts in between.
abbrev requests : List Request
requests =
    put_body 1 2 body none
    ∷ start_upload 10 11 7 1 2 3 6
    ∷ get_body 1 2
    ∷ delete_note 20 1 2
    ∷ get_body 1 2
    ∷ []

serve-Trace_example :
    Trace digest
      (bodies_of one_note)
      requests
      (serve digest requests one_note).0
      (bodies_of (serve digest requests one_note).1)
serve-Trace_example = serve-Trace digest requests one_note

serve-IsConsistent_example : IsConsistent (serve digest requests empty_db).1
serve-IsConsistent_example = serve-IsConsistent digest requests empty_db empty_db-IsConsistent

-- User 4 puts a note with the id of the note of user 1, and deletes it.
abbrev other_requests : List Request
other_requests = put_body 4 2 body none ∷ get_body 1 2 ∷ delete_note 20 4 2 ∷ []

serve-SameNote_example : SameNote 1 2 one_upload (serve digest other_requests one_upload).1
serve-SameNote_example =
    serve-SameNote digest 1 2 other_requests one_upload (refl, (refl, (refl, tt)))

list_notes-eq_example :
    (run (list_notes 1 true) one_note ≡ (
      ok (map (λ x. to_summary x (stats_in one_note 1 x.note_id)) (owned_notes 1 true one_note)),
      one_note,
    ))
    × ((note_id : ℕ)
        → run (attachment_stats 1 note_id) one_note ≡ (ok (stats_in one_note 1 note_id), one_note))
list_notes-eq_example = list_notes-eq 1 true one_note

list_shared_notes-Listed_example :
    (entries : List SharedNoteSummaryResponse) × (run (list_shared_notes 4) one_share
      ≡ (ok entries, one_share))
    × All (Listed 4 one_share) entries
list_shared_notes-Listed_example = list_shared_notes-Listed 4 one_share (tt, tt)

list_shared_notes_complete_example :
    (entries : List SharedNoteSummaryResponse) × (run (list_shared_notes 4) one_share
      ≡ (ok entries, one_share))
    × Memᴰ
        (record {
          note_id = 2;
          title = codes "A";
          updated_at = 60;
          etag = codes "e";
          owner_email = codes "a@b";
          owner_id = 1;
          shared_at = 20;
        })
        entries
list_shared_notes_complete_example =
    list_shared_notes_complete one_share note_share note user (Memᴰ.head refl) (Memᴰ.head refl)
      (Memᴰ.head refl) refl refl

-- User 4 drops the share; user 1 shares the note again, revokes that, and shares it once more.
abbrev sharing_requests : List AnyRequest
sharing_requests =
    leave 4 2
    ∷ share 30 9 1 2 (codes "c@d") (codes "k")
    ∷ revoke 1 2 (codes "c@d")
    ∷ on_note (delete_note 40 1 9)
    ∷ share 41 10 1 2 (codes "c@d") (codes "k")
    ∷ []

shares_valid : HasValidShares one_share
unfolding exists
shares_valid = record {
  unique = (tt, tt);
  valid = (record { of_note = refl; of_user = refl; apart = omega arith }, tt);
}

abbrev after_sharing : Db
after_sharing = after_all digest lower_case lower_case some sharing_requests one_share

new_id_free : exists (is_share 12) after_sharing.note_shares ≡ false
unfolding run share_note revoke_share remove_shared_note soft_delete_note find_user_by_email find
    exists text_eq add_share delete_share decode_wrapped_fek remove
new_id_free = refl

after_all-HasValidShares_example :
    HasValidShares after_sharing
    × ((run
          (share_note lower_case lower_case some 50 12 1 2 (codes "c@d") (codes "k"))
          after_sharing).0
        ≢ err integrity_error)
after_all-HasValidShares_example =
    after_all-HasValidShares digest lower_case lower_case some sharing_requests one_share 50 12 1 2
      (codes "c@d") (codes "k") shares_valid new_id_free

-- The URL of a database on Render, with `sslmode=require`.
abbrev url_query : Query
url_query = (codes "sslmode", codes "require") ∷ (codes "a", codes "b") ∷ []

normalize_query-Normalized_example :
    Normalized true (codes "dpg-1") url_query (normalize_query true (codes "dpg-1") url_query)
normalize_query-Normalized_example = normalize_query-Normalized true (codes "dpg-1") url_query

-- Two attachments with bytes and one without.
abbrev old_table : List OldAttachment
old_table =
    record {
      user_id = 1;
      note_id = 2;
      attachment_id = 4;
      content = some (8 ∷ 9 ∷ []);
      size_bytes = 2;
    }
    ∷ record { user_id = 1; note_id = 2; attachment_id = 5; content = none; size_bytes = 7 }
    ∷ record {
      user_id = 1;
      note_id = 2;
      attachment_id = 3;
      content = some (1 ∷ 2 ∷ 3 ∷ []);
      size_bytes = 3;
    }
    ∷ []

abbrev third : DataRow
third = record {
  user_id = 1;
  note_id = 2;
  attachment_id = 3;
  content = 1 ∷ 2 ∷ 3 ∷ [];
  size_bytes = 3;
}

abbrev fourth : DataRow
fourth = record {
  user_id = 1;
  note_id = 2;
  attachment_id = 4;
  content = 8 ∷ 9 ∷ [];
  size_bytes = 2;
}

selection : selected_rows old_table ≡ third ∷ fourth ∷ []
unfolding selected_rows with_data order_by insert_by
selection = refl

upgrade_ends_example : upgrade old_table [] ≢ err out_of_fuel
upgrade_ends_example = upgrade_ends old_table []

keys : Keyed (selected_rows old_table)
unfolding selected_rows with_data order_by insert_by
keys = ((refl, tt), (tt, tt))

sizes : All (λ r. length r.content ≡ r.size_bytes) (selected_rows old_table)
unfolding selected_rows with_data order_by insert_by
sizes = (refl, (refl, tt))

upgrade-eq_example :
    upgrade old_table [] ≡ ok (migrated migrated_chunk_size_bytes (selected_rows old_table))
upgrade-eq_example = upgrade-eq old_table keys sizes

abbrev attachment : NoteAttachment
attachment = record {
  user_id = 1;
  note_id = 2;
  attachment_id = 4;
  size_bytes = 2;
  etag = codes "e";
  content_type = none;
  updated_at = 6;
}

abbrev upgraded : Db
upgraded = record empty_db {
  note_attachments = attachment ∷ [];
  attachment_chunks =
      record {
        user_id = 1;
        note_id = 2;
        attachment_id = 3;
        chunk_index = 0;
        content = 1 ∷ 2 ∷ 3 ∷ [];
      }
      ∷ record {
        user_id = 1;
        note_id = 2;
        attachment_id = 4;
        chunk_index = 0;
        content = 8 ∷ 9 ∷ [];
      }
      ∷ [];
}

fourth_selected : find (same_key fourth) (selected_rows old_table) ≡ some fourth
unfolding selected_rows with_data order_by insert_by find
fourth_selected = refl

upgrading : upgrade old_table [] ≡ ok upgraded.attachment_chunks
unfolding upgrade selected_rows with_data order_by insert_by insert_batches insert_rows insert_row
    insert_slices insert_chunk exists
upgrading = refl

attachment_there : find (is_attachment 1 2 4) upgraded.note_attachments ≡ some attachment
unfolding find
attachment_there = refl

one_chunk : 0 < total_chunks_for_size 2
unfolding total_chunks_for_size
one_chunk = omega arith

upgrade-read_chunk_example : run (read_chunk 1 2 4 (pos 0)) upgraded ≡ (
  ok (record {
    content = take chunk_size_bytes (drop (0 * chunk_size_bytes) fourth.content);
    etag = codes "e";
  }),
  upgraded,
)
upgrade-read_chunk_example =
    upgrade-read_chunk old_table fourth fourth attachment 0 upgraded keys sizes fourth_selected
      upgrading attachment_there refl one_chunk
