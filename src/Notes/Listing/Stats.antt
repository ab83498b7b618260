-- ===== src/Notes/Listing/Stats.antt =====
-- app/notes/service.py: the one query of `attachment_stats_for_notes` against a query for each note.
use super_secure_notes_api.Prelude.{
  ℕ, suc, ◌+◌, ◌≡◌, ◌≢◌, refl, sym, ap, ◌∙◌, Bool, true, false, ◌&&◌, List, [], ◌∷◌, map, arith,
  ◌==◌, ==_refl, ==→eq, length, Bool-cases, inl, inr,
}
use super_secure_notes_api.Prelude.Result.{ok}
use super_secure_notes_api.Db.Models.{Note, NoteAttachment, Db}
use super_secure_notes_api.Db.Table.{select, find}
use super_secure_notes_api.Db.Table.Laws.{All, All-map}
use super_secure_notes_api.Db.Session.{run, open_session, ◌>>=◌, pure}
use super_secure_notes_api.Notes.Queries.{in_note, total_size_of, attachment_stats}
use super_secure_notes_api.Notes.Listing.{
  is_in, Group, add_to_group, group_by_note, attachment_stats_for_notes, stats_of, to_summary,
  owned_notes, list_notes,
}

abbrev totals : List NoteAttachment → ℕ × ℕ
totals rows = (length rows, total_size_of rows)

stats_of_here :
    (n : ℕ) (g : Group) (groups : List Group)
    → (g.note_id == n) ≡ true
    → stats_of n (g ∷ groups) ≡ (g.count, g.total_size)
unfolding stats_of find
stats_of_here n g groups h = rw (h, stats_of) refl

stats_of_there :
    (n : ℕ) (g : Group) (groups : List Group)
    → (g.note_id == n) ≡ false
    → stats_of n (g ∷ groups) ≡ stats_of n groups
unfolding stats_of find
stats_of_there n g groups h = rw (h, stats_of) refl

-- One row more in the group of its note.
abbrev add : NoteAttachment → ℕ × ℕ → ℕ × ℕ
add x s = (suc s.0, x.size_bytes + s.1)

stats_of-add_hit :
    (x : NoteAttachment) (n : ℕ) (groups : List Group)
    → x.note_id ≡ n
    → stats_of n (add_to_group x groups) ≡ add x (stats_of n groups)
unfolding add_to_group
stats_of-add_hit x n [] hit =
    stats_of_here n _ [] (ground (arith, hit))
    ∙ unfold stats_of in
      unfold find in ap (λ k. (1, k)) {x = x.size_bytes} {y = x.size_bytes + 0} (omega arith)
stats_of-add_hit x n (g ∷ groups) hit = elim (Bool-cases (g.note_id == x.note_id)) [
  | inl same ↦
      let here : (g.note_id == n) ≡ true = ground (arith, hit) in
      rw same (
        stats_of_here n _ groups here
        ∙ ap (λ k. (k, g.total_size + x.size_bytes)) {x = g.count + 1} {y = suc g.count}
            (omega arith)
        ∙ ap (λ k. (suc g.count, k)) {x = g.total_size + x.size_bytes}
            {y = x.size_bytes + g.total_size} (omega arith)
        ∙ ap (add x) (sym (stats_of_here n g groups here)))
  | inr other ↦
      let there : (g.note_id == n) ≡ false = ground (arith, hit) in
      rw other (
        stats_of_there n g _ there
        ∙ stats_of-add_hit x n groups hit
        ∙ ap (add x) (sym (stats_of_there n g groups there)))
]

stats_of-add_miss :
    (x : NoteAttachment) (n : ℕ) (groups : List Group)
    → x.note_id ≢ n
    → stats_of n (add_to_group x groups) ≡ stats_of n groups
unfolding add_to_group
stats_of-add_miss x n [] miss = stats_of_there n _ [] (ground (arith, miss))
stats_of-add_miss x n (g ∷ groups) miss = elim (Bool-cases (g.note_id == x.note_id)) [
  | inl same ↦
      let there : (g.note_id == n) ≡ false = ground (arith, miss) in
      rw same (stats_of_there n _ groups there ∙ sym (stats_of_there n g groups there))
  | inr other ↦ rw other (elim (Bool-cases (g.note_id == n)) [
    | inl here ↦ stats_of_here n g _ here ∙ sym (stats_of_here n g groups here)
    | inr there ↦
        stats_of_there n g _ there
        ∙ stats_of-add_miss x n groups miss
        ∙ sym (stats_of_there n g groups there)
  ])
]

abbrev has_note : ℕ → NoteAttachment → Bool
has_note n x = x.note_id == n

stats_of-group :
    (n : ℕ) (rows : List NoteAttachment)
    → stats_of n (group_by_note rows) ≡ totals (select (has_note n) rows)
unfolding group_by_note select
stats_of-group n [] = unfold stats_of in unfold find in refl
stats_of-group n (x ∷ rows) = elim (Bool-cases (x.note_id == n)) [
  | inl hit ↦
      rw (hit, has_note)
        (stats_of-add_hit x n (group_by_note rows) (==→eq _ _ hit)
          ∙ ap (add x) (stats_of-group n rows))
  | inr miss ↦
      rw (miss, has_note)
        (stats_of-add_miss x n (group_by_note rows) (λ e. ground (arith, e, miss))
          ∙ stats_of-group n rows)
]

select-group :
    (user_id n : ℕ) (ids : List ℕ) (rows : List NoteAttachment)
    → is_in ids n ≡ true
    → select (has_note n) (select (λ x. x.user_id == user_id && is_in ids x.note_id) rows)
      ≡ select (in_note user_id n) rows
unfolding select
select-group user_id n ids [] mem = refl
select-group user_id n ids (x ∷ rows) mem =
    let rest = select-group user_id n ids rows mem in
    elim (Bool-cases (x.user_id == user_id)) [
      | inr other ↦ rw other rest
      | inl mine ↦ elim (Bool-cases (x.note_id == n)) [
        | inl hit ↦
            let there : is_in ids x.note_id ≡ true = ap (is_in ids) (==→eq _ _ hit) ∙ mem in
            rw (mine, there, hit) (ap (◌∷◌ x) rest)
        | inr miss ↦ elim (Bool-cases (is_in ids x.note_id)) [
          | inl there ↦ rw (mine, there, miss) rest
          | inr gone ↦ rw (mine, gone, miss) rest
        ]
      ]
    ]

-- What `attachment_stats` gives for one note.
abbrev pub stats_in : Db → ℕ → ℕ → ℕ × ℕ
stats_in db user_id note_id = totals (select (in_note user_id note_id) db.note_attachments)

stats_in-attachment_stats :
    (user_id note_id : ℕ) (db : Db)
    → run (attachment_stats user_id note_id) db ≡ (ok (stats_in db user_id note_id), db)
unfolding run attachment_stats
stats_in-attachment_stats user_id note_id db = refl

summaries :
    (user_id : ℕ) (ids : List ℕ) (db : Db) (notes : List Note)
    → All (λ x. is_in ids x.note_id ≡ true) notes
    → map
        (λ x. to_summary x (
          stats_of x.note_id (
            group_by_note
              (select (λ y. y.user_id == user_id && is_in ids y.note_id) db.note_attachments))))
        notes
      ≡ map (λ x. to_summary x (stats_in db user_id x.note_id)) notes
summaries user_id ids db [] h = refl
summaries user_id ids db (x ∷ notes) h =
    let one =
      stats_of-group x.note_id
        (select (λ y. y.user_id == user_id && is_in ids y.note_id) db.note_attachments)
      ∙ ap totals (select-group user_id x.note_id ids db.note_attachments h.0) in
    rw one
      (ap (◌∷◌ (to_summary x (stats_in db user_id x.note_id))) (summaries user_id ids db notes h.1))

All-is_in :
    (notes : List Note) → All (λ x. is_in (map (λ y. y.note_id) notes) x.note_id ≡ true) notes
unfolding is_in
All-is_in [] = tt
All-is_in (x ∷ notes) =
    (rw (==_refl x.note_id) refl, All-map _ _ notes (λ y h. ground (arith, h)) (All-is_in notes))

list_cases :
    (user_id : ℕ) (db : Db) (notes : List Note)
    → (attachment_stats_for_notes user_id (map (λ x. x.note_id) notes) >>= λ stats.
          pure (map (λ x. to_summary x (stats_of x.note_id stats)) notes))
        (open_session db)
      ≡ (ok (map (λ x. to_summary x (stats_in db user_id x.note_id)) notes), open_session db)
unfolding attachment_stats_for_notes
list_cases user_id db [] = refl
list_cases user_id db (x ∷ notes) =
    ap (λ l. (ok l, open_session db))
      (summaries user_id (map (λ y. y.note_id) (x ∷ notes)) db (x ∷ notes) (All-is_in (x ∷ notes)))

-- `list_notes` gives, for the user's notes in the order of the query, the numbers and the total sizes
-- that `attachment_stats` gives for each note by itself, though it asks for all of them at once; it
-- changes nothing.
pub list_notes-eq :
    (user_id : ℕ) (include_deleted : Bool) (db : Db)
    → (run (list_notes user_id include_deleted) db ≡ (
      ok (
          map
            (λ x. to_summary x (stats_in db user_id x.note_id))
            (owned_notes user_id include_deleted db)),
      db,
    ))
      × ((note_id : ℕ)
          → run (attachment_stats user_id note_id) db ≡ (ok (stats_in db user_id note_id), db))
unfolding run list_notes
list_notes-eq user_id include_deleted db = (
  ap (λ r. (r.0, r.1.committed)) (list_cases user_id db (owned_notes user_id include_deleted db)),
  λ note_id. stats_in-attachment_stats user_id note_id db,
)
