-- ===== src/Shares/Listing/Joined.antt =====
-- app/shares/router.py: which shared notes are listed.
use super_secure_notes_api.Prelude.{
  ℕ, ◌≡◌, refl, sym, ap, ◌∙◌, Bool, true, false, ◌&&◌, some, List, [], ◌∷◌, map, arith, ltb, ◌==◌,
  ==_refl, Bool-cases, inl, inr,
}
use super_secure_notes_api.Prelude.Result.{ok}
use super_secure_notes_api.Prelude.Text.{text_eq, text_eq_refl}
use super_secure_notes_api.Db.Models.{Note, NoteShare, Db}
use super_secure_notes_api.Db.Table.{select, find, exists, join, insert_desc, order_by_desc}
use super_secure_notes_api.Db.Table.Laws.{exists-cons, All, All-append, All-map, All-both}
use super_secure_notes_api.Db.Session.{run}
use super_secure_notes_api.Notes.Queries.{is_active}
use super_secure_notes_api.Shares.{is_shared}
use super_secure_notes_api.Shares.Access.{Unique}
use super_secure_notes_api.Shares.Listing.{
  SharedNoteSummaryResponse, Row, of_note, of_owner, is_received, to_shared_summary, shared_rows,
  list_shared_notes,
}

-- A test that the row meets, some of the rows meets.
abbrev Among : {A : Type 0} → List A → A → Type 0
Among {A} rows x = (p : A → Bool) → p x ≡ true → exists p rows ≡ true

All-Among : {A : Type 0} (rows : List A) → All (Among rows) rows
unfolding exists
All-Among [] = tt
All-Among (x ∷ rows) = (
  (λ p hit. rw hit refl),
  All-map _ _ rows (λ y h p hit. exists-cons p x rows (h p hit)) (All-Among rows),
)

module _ {A B : Type 0} (on : A → B → Bool) (P : A → Type 0) (Q : B → Type 0) (R : A × B → Type 0)
    (h : (x : A) (y : B) → on x y ≡ true → P x → Q y → R (x, y)) where
  All-pairs : (x : A) (ys : List B) → P x → All Q ys → All R (map (λ y. (x, y)) (select (on x) ys))
  unfolding select
  All-pairs x [] p qs = tt
  All-pairs x (y ∷ ys) p qs = elim (Bool-cases (on x y)) [
    | inl hit ↦ rw hit (h x y hit p qs.0, All-pairs x ys p qs.1)
    | inr miss ↦ rw miss (All-pairs x ys p qs.1)
  ]

  All-join : (xs : List A) (ys : List B) → All P xs → All Q ys → All R (join on xs ys)
  unfolding join
  All-join [] ys ps qs = tt
  All-join (x ∷ xs) ys ps qs = All-append R _ _ (All-pairs x ys ps.0 qs) (All-join xs ys ps.1 qs)

module _ {A : Type 0} (key : A → ℕ) (P : A → Type 0) where
  All-insert_desc : (x : A) (rows : List A) → P x → All P rows → All P (insert_desc key x rows)
  unfolding insert_desc
  All-insert_desc x [] h all = (h, tt)
  All-insert_desc x (y ∷ rows) h all = elim (Bool-cases (ltb (key x) (key y))) [
    | inl less ↦ rw less (all.0, All-insert_desc x rows h all.1)
    | inr more ↦ rw more (h, all)
  ]

  All-order_by_desc : (rows : List A) → All P rows → All P (order_by_desc key rows)
  unfolding order_by_desc
  All-order_by_desc [] all = tt
  All-order_by_desc (x ∷ rows) all =
      All-insert_desc x (order_by_desc key rows) all.0 (All-order_by_desc rows all.1)

-- The only share of a note with a recipient is the one that a query finds.
abbrev Found : List NoteShare → NoteShare → Type 0
Found rows x = find (is_shared x.recipient_id x.note_id) rows ≡ some x

All-Found : (rows : List NoteShare) → Unique rows → All (Found rows) rows
unfolding find
All-Found [] u = tt
All-Found (x ∷ rows) u = (
  rw (==_refl x.recipient_id, ==_refl x.note_id) refl,
  All-map _ _ rows
      (λ y (other, h).
        let miss : is_shared y.recipient_id y.note_id x ≡ false = ground (arith, other) in
        rw miss h)
      (All-both _ _ rows u.0 (All-Found rows u.1)),
)

-- An entry of the list: the share that opens the note, an active note with that title, and its owner.
pub record Listed (user_id : ℕ) (db : Db) (r : SharedNoteSummaryResponse) : Type 0 where
  pub share : NoteShare
  pub found : find (is_shared user_id r.note_id) db.note_shares ≡ some share
  pub owner : share.owner_id ≡ r.owner_id
  pub note :
      exists
        (λ x.
          is_active r.owner_id r.note_id x && (text_eq x.title r.title && text_eq x.etag r.etag))
        db.notes
      ≡ true
  pub email : exists (λ u. u.id == r.owner_id && text_eq u.email r.owner_email) db.users ≡ true

abbrev Joined : Db → NoteShare × Note → Type 0
Joined db row = (of_note row.0 row.1 ≡ true) × Found db.note_shares row.0 × Among db.notes row.1

row-Listed :
    (user_id : ℕ) (db : Db) (row : Row)
    → of_owner row.0 row.1 ≡ true
    → Joined db row.0
    → Among db.users row.1
    → is_received user_id row ≡ true
    → Listed user_id db (to_shared_summary row)
row-Listed user_id db ((s, x), u) owner (on, found, note) email received =
    let mine : s.recipient_id ≡ user_id = ground (arith, received) in
    let active : is_active s.owner_id s.note_id x ≡ true = ground (arith, on, received) in
    let own : (u.id == s.owner_id) ≡ true = ground (arith, owner) in
    record {
      share = s;
      found = ap (λ k. find (is_shared k s.note_id) db.note_shares) (sym mine) ∙ found;
      owner = refl;
      note = note _ (rw (active, text_eq_refl x.title, text_eq_refl x.etag) refl);
      email = email _ (rw (own, text_eq_refl u.email) refl);
    }

All-tested :
    {A : Type 0} (P : A → Type 0) (p : A → Bool) (rows : List A)
    → All P rows
    → All (λ x. P x × (p x ≡ true)) (select p rows)
unfolding select
All-tested P p [] all = tt
All-tested P p (x ∷ rows) all = elim (Bool-cases (p x)) [
  | inl hit ↦ rw hit ((all.0, hit), All-tested P p rows all.1)
  | inr miss ↦ rw miss (All-tested P p rows all.1)
]

All-mapped :
    {A B : Type 0} (P : B → Type 0) (f : A → B) (rows : List A)
    → All (λ x. P (f x)) rows
    → All P (map f rows)
All-mapped P f [] all = tt
All-mapped P f (x ∷ rows) all = (all.0, All-mapped P f rows all.1)

-- With at most one share for each note and recipient, `list_shared_notes` changes nothing, and each of
-- its entries is of a note whose share with the user is the one that the routes for the note find, with
-- the owner of the entry; that owner has an active note with the entry's id, title and etag, and a row
-- with the entry's email.
pub list_shared_notes-Listed :
    (user_id : ℕ) (db : Db)
    → Unique db.note_shares
    → (entries : List SharedNoteSummaryResponse) × (run (list_shared_notes user_id) db
        ≡ (ok entries, db))
      × All (Listed user_id db) entries
unfolding run list_shared_notes shared_rows
list_shared_notes-Listed user_id db unique =
    let notes =
      All-join of_note (Found db.note_shares) (Among db.notes) (Joined db)
        (λ s x on found there. (on, found, there)) db.note_shares db.notes
        (All-Found db.note_shares unique) (All-Among db.notes) in
    let rows =
      All-join of_owner (Joined db) (Among db.users)
        (λ (row : Row). is_received user_id row ≡ true → Listed user_id db (to_shared_summary row))
        (λ row u on joined there received. row-Listed user_id db (row, u) on joined there received)
        (join of_note db.note_shares db.notes) db.users notes (All-Among db.users) in
    let selected = All-tested _ (is_received user_id) _ rows in
    (
      map to_shared_summary (shared_rows user_id db),
      refl,
      All-mapped (Listed user_id db) to_shared_summary (shared_rows user_id db) (
          All-order_by_desc (λ (row : Row). row.0.0.shared_at) _ _
            (All-map _ (λ (row : Row). Listed user_id db (to_shared_summary row)) _
              (λ row (h, hit). h hit) selected)),
    )
