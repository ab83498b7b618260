-- ===== src/Shares/Listing/Complete.antt =====
-- app/shares/router.py: every share of an active note is listed.
use mathlib.Core.List.{Memᴰ}
use mathlib.Core.List.Memᴰ
use super_secure_notes_api.Prelude.{
  ℕ, ◌≡◌, refl, sym, ap, subst, Bool, true, List, [], ◌∷◌, map, arith, ltb, Bool-cases, inl, inr,
  ==_refl,
}
use super_secure_notes_api.Prelude.Result.{ok}
use super_secure_notes_api.Db.Models.{User, Note, NoteShare, Db}
use super_secure_notes_api.Db.Table.{select, join, insert_desc, order_by_desc}
use super_secure_notes_api.Db.Session.{run}
use super_secure_notes_api.Notes.Queries.{is_active}
use super_secure_notes_api.Shares.Listing.{
  SharedNoteSummaryResponse, of_note, of_owner, is_received, to_shared_summary, shared_rows,
  list_shared_notes,
}

select-Mem :
    {A : Type 0} (p : A → Bool) {x : A} {rows : List A}
    → p x ≡ true
    → Memᴰ x rows
    → Memᴰ x (select p rows)
unfolding select
select-Mem p hit (Memᴰ.head same) = rw (sym (ap p same), hit) (Memᴰ.head same)
select-Mem p {rows = y ∷ rows} hit (Memᴰ.tail there) = elim (Bool-cases (p y)) [
  | inl keep ↦ rw keep (Memᴰ.tail (select-Mem p hit there))
  | inr drop ↦ rw drop (select-Mem p hit there)
]

join-Mem :
    {A B : Type 0} (on : A → B → Bool) {x : A} {y : B} {xs : List A} {ys : List B}
    → on x y ≡ true
    → Memᴰ x xs
    → Memᴰ y ys
    → Memᴰ (x, y) (join on xs ys)
unfolding join
join-Mem on {x} {y} {xs = z ∷ xs} {ys} hit (Memᴰ.head same) right =
    subst (λ a. Memᴰ (x, y) (join on (a ∷ xs) ys)) same
      (Memᴰ.append_left _ (Memᴰ.map (λ b. (x, b)) (select-Mem (on x) hit right)))
join-Mem on hit (Memᴰ.tail left) right = Memᴰ.append_right _ (join-Mem on hit left right)

module _ {A : Type 0} (key : A → ℕ) where
  insert_desc-head : (x : A) (rows : List A) → Memᴰ x (insert_desc key x rows)
  unfolding insert_desc
  insert_desc-head x [] = Memᴰ.head refl
  insert_desc-head x (y ∷ rows) = elim (Bool-cases (ltb (key x) (key y))) [
    | inl less ↦ rw less (Memᴰ.tail (insert_desc-head x rows))
    | inr more ↦ rw more (Memᴰ.head refl)
  ]

  insert_desc-tail : {x : A} (y : A) (rows : List A) → Memᴰ x rows → Memᴰ x (insert_desc key y rows)
  unfolding insert_desc
  insert_desc-tail y [] there = elim there [ ]
  insert_desc-tail y (z ∷ rows) (Memᴰ.head same) = elim (Bool-cases (ltb (key y) (key z))) [
    | inl less ↦ rw less (Memᴰ.head same)
    | inr more ↦ rw more (Memᴰ.tail (Memᴰ.head same))
  ]
  insert_desc-tail y (z ∷ rows) (Memᴰ.tail there) = elim (Bool-cases (ltb (key y) (key z))) [
    | inl less ↦ rw less (Memᴰ.tail (insert_desc-tail y rows there))
    | inr more ↦ rw more (Memᴰ.tail (Memᴰ.tail there))
  ]

  order_by_desc-Mem : {x : A} (rows : List A) → Memᴰ x rows → Memᴰ x (order_by_desc key rows)
  unfolding order_by_desc
  order_by_desc-Mem [] there = elim there [ ]
  order_by_desc-Mem (y ∷ rows) (Memᴰ.head same) =
      subst (λ a. Memᴰ a (order_by_desc key (y ∷ rows))) (sym same)
        (insert_desc-head y (order_by_desc key rows))
  order_by_desc-Mem (y ∷ rows) (Memᴰ.tail there) =
      insert_desc-tail y (order_by_desc key rows) (order_by_desc-Mem rows there)

-- For a share that is stored, an active note that it is of and the owner's row, the list of the share's
-- recipient has the entry with the id, title and etag of the note, the email and id of the owner, and
-- the time of the share.
pub list_shared_notes_complete :
    (db : Db) (share : NoteShare) (x : Note) (owner : User)
    → Memᴰ share db.note_shares
    → Memᴰ x db.notes
    → Memᴰ owner db.users
    → is_active share.owner_id share.note_id x ≡ true
    → owner.id ≡ share.owner_id
    → (entries : List SharedNoteSummaryResponse) × (run (list_shared_notes share.recipient_id) db
        ≡ (ok entries, db))
      × Memᴰ
          (record {
            note_id = x.note_id;
            title = x.title;
            updated_at = x.updated_at;
            etag = x.etag;
            owner_email = owner.email;
            owner_id = owner.id;
            shared_at = share.shared_at;
          })
          entries
unfolding run list_shared_notes shared_rows
list_shared_notes_complete db share x owner stored listed known active own =
    let on : of_note share x ≡ true = ground (arith, active) in
    let by : of_owner (share, x) owner ≡ true = ground (arith, own) in
    let received : is_received share.recipient_id ((share, x), owner) ≡ true =
      rw (==_refl share.recipient_id) ground (arith, active) in
    let note_id : share.note_id ≡ x.note_id = ground (arith, active) in
    let row =
      order_by_desc-Mem (λ row. row.0.0.shared_at) _
        (select-Mem (is_received share.recipient_id) received
          (join-Mem of_owner by (join-Mem of_note on stored listed) known)) in
    (
      map to_shared_summary (shared_rows share.recipient_id db),
      refl,
      rw (sym note_id, own) (Memᴰ.map to_shared_summary row),
    )
