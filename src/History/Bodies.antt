-- ===== src/History/Bodies.antt =====
-- app/notes/router.py: a specification of note bodies, and the bodies that the tables hold.
use super_secure_notes_api.Prelude.{
  ℕ, ◌≡◌, refl, ap, ◌∙◌, ◌&&◌, Option, none, some, List, [], ◌∷◌, ◌==◌, if◌then◌else◌, Option-cases,
  inl, inr, ◌⊎◌,
}
use super_secure_notes_api.Prelude.Result.{Result, ok, err}
use super_secure_notes_api.Prelude.Text.{Text}
use super_secure_notes_api.Errors.{note_not_found, body_not_found}
use super_secure_notes_api.Db.Models.{Note, NoteBlob, Db}
use super_secure_notes_api.Db.Table.{find}
use super_secure_notes_api.Db.Session.{Failure, api_error, run}
use super_secure_notes_api.Notes.Etag.{compute_etag}
use super_secure_notes_api.Notes.Schemas.{ContentResponse}
use super_secure_notes_api.Notes.Queries.{is_active, is_blob}
use super_secure_notes_api.Notes.Bodies.{get_note_body}
use super_secure_notes_api.Notes.Isolation.{SameNote}
use super_secure_notes_api.History.{
  Request, Reply, content_reply, put_body, get_body, delete_note, get_chunk, remove_attachment,
  start_upload, send_chunk, finish_upload, handle,
}

-- The abstract state: the body of each note of each user, if the note has one.
abbrev pub Bodies : Type 0
Bodies = ℕ → ℕ → Option (List ℕ)

-- The same bodies.
abbrev pub Unchanged : Bodies → Bodies → Type 0
Unchanged v v' = (u n : ℕ) → v' u n ≡ v u n

-- One note has a new body, or none any more.
abbrev pub set_body : ℕ → ℕ → Option (List ℕ) → Bodies → Bodies
set_body user_id note_id o v u n = if u == user_id && n == note_id then o else v u n

-- The replies to a download of a body.
abbrev pub Answers : (List ℕ → Text) → Option (List ℕ) → Result Failure Reply → Type 0
Answers sha256 none reply =
    (reply ≡ err (api_error note_not_found)) ⊎ (reply ≡ err (api_error body_not_found))
Answers sha256 (some body) reply =
    reply ≡ ok (content_reply (record { content = body; etag = compute_etag sha256 body }))

-- The specification: which replies to a request are allowed, and what it does to the bodies.
abbrev pub Allowed : (List ℕ → Text) → Bodies → Request → Result Failure Reply → Bodies → Type 0
Allowed sha256 v (get_body u n) reply v' = Unchanged v v' × Answers sha256 (v u n) reply
Allowed sha256 v (put_body u n body _) (ok _) v' = Unchanged (set_body u n (some body) v) v'
Allowed sha256 v (put_body u n body _) (err e) v' = Unchanged v v'
Allowed sha256 v (delete_note _ u n) (ok _) v' = Unchanged (set_body u n none v) v'
Allowed sha256 v (delete_note _ u n) (err e) v' = Unchanged v v'
Allowed sha256 v (get_chunk _ _ _ _) reply v' = Unchanged v v'
Allowed sha256 v (remove_attachment _ _ _) reply v' = Unchanged v v'
Allowed sha256 v (start_upload _ _ _ _ _ _ _) reply v' = Unchanged v v'
Allowed sha256 v (send_chunk _ _ _ _ _ _ _ _) reply v' = Unchanged v v'
Allowed sha256 v (finish_upload _ _ _ _ _ _ _ _ _) reply v' = Unchanged v v'

-- The specification for requests one after another.
abbrev pub Trace :
    (List ℕ → Text) → Bodies → List Request → List (Result Failure Reply) → Bodies → Type 0
Trace sha256 v [] [] v' = Unchanged v v'
Trace sha256 v [] (reply ∷ replies) v' = ⊥
Trace sha256 v (r ∷ requests) [] v' = ⊥
Trace sha256 v (r ∷ requests) (reply ∷ replies) v' =
    (w : Bodies) × Allowed sha256 v r reply w × Trace sha256 w requests replies v'

abbrev pub body_of : Option Note → Option NoteBlob → Option (List ℕ)
body_of none blob = none
body_of (some x) none = none
body_of (some x) (some blob) = some blob.content

-- The bodies that the tables hold.
abbrev pub bodies_of : Db → Bodies
bodies_of db u n = body_of (find (is_active u n) db.notes) (find (is_blob u n) db.note_blobs)

pub SameNote-bodies :
    (u n : ℕ) (db db' : Db) → SameNote u n db db' → bodies_of db' u n ≡ bodies_of db u n
SameNote-bodies u n db db' h =
    ap (λ x. body_of x (find (is_blob u n) db'.note_blobs)) h.note
    ∙ ap (body_of (find (is_active u n) db.notes)) h.blob

-- A download of a body answers with the body that there is.
pub get-Answers :
    (sha256 : List ℕ → Text) (u n : ℕ) (db : Db)
    → Answers sha256 (bodies_of db u n) (run (handle sha256 (get_body u n)) db).0
unfolding run get_note_body
get-Answers sha256 u n db = elim (Option-cases (find (is_active u n) db.notes)) [
  | inl absent ↦ rw absent (inl refl)
  | inr (x, active) ↦ elim (Option-cases (find (is_blob u n) db.note_blobs)) [
    | inl empty ↦ rw (active, empty) (inr refl)
    | inr (blob, there) ↦ rw (active, there) refl
  ]
]

-- A download that answers tells the body that there is.
pub read_body :
    (sha256 : List ℕ → Text) (u n : ℕ) (db : Db) (r : ContentResponse)
    → run (get_note_body sha256 u n) db ≡ (ok r, db)
    → bodies_of db u n ≡ some r.content
unfolding run get_note_body
read_body sha256 u n db r = elim (Option-cases (find (is_active u n) db.notes)) [
  | inl absent ↦ rw absent (λ h. cc)
  | inr (x, active) ↦ elim (Option-cases (find (is_blob u n) db.note_blobs)) [
    | inl empty ↦ rw (active, empty) (λ h. cc)
    | inr (blob, there) ↦ rw (active, there) (λ h. ap content_in h)
  ]
]
  where
    content_in : Result Failure ContentResponse × Db → Option (List ℕ)
    content_in (ok c, d) = some c.content
    content_in (err e, d) = none

pub no_body :
    (sha256 : List ℕ → Text) (u n : ℕ) (db : Db)
    → run (get_note_body sha256 u n) db ≡ (err (api_error note_not_found), db)
    → bodies_of db u n ≡ none
unfolding run get_note_body
no_body sha256 u n db = elim (Option-cases (find (is_active u n) db.notes)) [
  | inl absent ↦ rw absent (λ h. refl)
  | inr (x, active) ↦ elim (Option-cases (find (is_blob u n) db.note_blobs)) [
    | inl empty ↦ rw (active, empty) (λ h. refl)
    | inr (blob, there) ↦ rw (active, there) (λ h. cc)
  ]
]
