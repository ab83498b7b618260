-- ===== src/Notes/Frame.antt =====
-- app/notes/service.py: which parts of the operations commit nothing and leave the tables of uploads
-- alone, and what an operation that fails has committed.
use Prim.Native.String.{String}
use super_secure_notes_api.Prelude.{
  ℕ, ◌≡◌, refl, ◌∙◌, Bool, true, false, Option, none, some, List, arith,
}
use super_secure_notes_api.Prelude.Result.{Result, ok, err}
use super_secure_notes_api.Errors.{ApiError}
use super_secure_notes_api.Prelude.Text.{Text}
use super_secure_notes_api.Parsers.Ssnt.{NoteMetadata}
use super_secure_notes_api.Db.Models.{NoteAttachment, Note, Db}
use super_secure_notes_api.Db.Session.{
  Session, Action, Failure, continue, pure, ◌>>=◌, raise_if, lift, commit, run, open_session,
}
use super_secure_notes_api.Notes.Queries.{
  get_active_note, get_note_attachment, get_note_blob, attachment_stats,
}
use super_secure_notes_api.Notes.Service.{
  recompute_note_sync_metadata, check_if_match, compute_upload_etag, or_raise,
  validate_manifest_consistency, store_note,
}
use super_secure_notes_api.Notes.Attachments.{
  store_attachment, promote_upload_chunks, finalize_chunked_upload,
}

pub record SameUploads (s t : Session) : Type 0 where
  pub committed : t.committed ≡ s.committed
  pub sessions : t.pending.upload_sessions ≡ s.pending.upload_sessions
  pub chunks : t.pending.upload_chunks ≡ s.pending.upload_chunks

SameUploads-refl : (s : Session) → SameUploads s s
SameUploads-refl s = record { committed = refl; sessions = refl; chunks = refl }

SameUploads-trans : {s t u : Session} → SameUploads s t → SameUploads t u → SameUploads s u
SameUploads-trans p q = record {
  committed = q.committed ∙ p.committed;
  sessions = q.sessions ∙ p.sessions;
  chunks = q.chunks ∙ p.chunks;
}

-- The action leaves them alone, whether it returns or raises.
pub record Spares {A : Type 0} (m : Action A) : Type 0 where
  pub after : (s : Session) → SameUploads s (m s).1

pub Spares-continue :
    {A B : Type 0} (r : Result Failure A) (f : A → Action B)
    → ((a : A) → Spares (f a))
    → (s : Session) → SameUploads s (continue r f s).1
Spares-continue (ok a) f h s = (h a).after s
Spares-continue (err e) f h s = SameUploads-refl s

pub Spares-bind :
    {A B : Type 0} (m : Action A) (f : A → Action B)
    → Spares m
    → ((a : A) → Spares (f a))
    → Spares (m >>= f)
Spares-bind m f p q = record {
  after = λ s. SameUploads-trans (p.after s) (Spares-continue (m s).0 f q (m s).1);
}

pub Spares-pure : {A : Type 0} (a : A) → Spares (pure a)
Spares-pure a = record { after = SameUploads-refl }

pub Spares-or_raise : {A : Type 0} (o : Option A) (e : ApiError) → Spares (or_raise o e)
Spares-or_raise none e = record { after = SameUploads-refl }
Spares-or_raise (some a) e = record { after = SameUploads-refl }

pub Spares-get_active_note : (user note : ℕ) → Spares (get_active_note user note)
unfolding get_active_note
Spares-get_active_note user note = record { after = SameUploads-refl }

pub Spares-get_note_attachment : (user note att : ℕ) → Spares (get_note_attachment user note att)
unfolding get_note_attachment
Spares-get_note_attachment user note att = record { after = SameUploads-refl }

pub Spares-check_if_match :
    (etag if_match : Option Text) (message : String) → Spares (check_if_match etag if_match message)
unfolding check_if_match
Spares-check_if_match none m message = record { after = SameUploads-refl }
Spares-check_if_match (some e) none message = record { after = SameUploads-refl }
Spares-check_if_match (some e) (some m) message = record { after = λ s. ground arith }

pub Spares-store_attachment :
    (user note att total : ℕ) (etag : Text) (content_type : Option Text) (now : ℕ)
    (existing : Option NoteAttachment)
    → Spares (store_attachment user note att total etag content_type now existing)
unfolding store_attachment
Spares-store_attachment user note att total etag content_type now none = record {
  after = λ s. ground arith;
}
Spares-store_attachment user note att total etag content_type now (some x) = record {
  after = λ s. ground arith;
}

pub Spares-promote_upload_chunks :
    (user note att k : ℕ) → Spares (promote_upload_chunks user note att k)
unfolding promote_upload_chunks
Spares-promote_upload_chunks user note att k = record { after = λ s. ground arith }

module _ (sha256 : List ℕ → Text) where
  pub Spares-compute_upload_etag : (k : ℕ) → Spares (compute_upload_etag sha256 k)
  unfolding compute_upload_etag
  Spares-compute_upload_etag k = record { after = SameUploads-refl }

  pub Spares-recompute :
      (user note : ℕ) (body : Option (List ℕ)) (time : Option ℕ)
      → Spares (recompute_note_sync_metadata sha256 user note body time)
  unfolding recompute_note_sync_metadata
  Spares-recompute user note none none = record { after = λ s. ground arith }
  Spares-recompute user note none (some t) = record { after = λ s. ground arith }
  Spares-recompute user note (some b) none = record { after = λ s. ground arith }
  Spares-recompute user note (some b) (some t) = record { after = λ s. ground arith }

pub Spares-raise_if : (b : Bool) (e : Failure) → Spares (raise_if b e)
Spares-raise_if true e = record { after = SameUploads-refl }
Spares-raise_if false e = record { after = SameUploads-refl }

pub Spares-lift : {A : Type 0} (r : Result Failure A) → Spares (lift r)
Spares-lift r = record { after = SameUploads-refl }

pub Spares-attachment_stats : (user note : ℕ) → Spares (attachment_stats user note)
unfolding attachment_stats
Spares-attachment_stats user note = record { after = SameUploads-refl }

pub Spares-get_note_blob : (user note : ℕ) → Spares (get_note_blob user note)
unfolding get_note_blob
Spares-get_note_blob user note = record { after = SameUploads-refl }

pub Spares-validate :
    (m : NoteMetadata) (count total : ℕ) → Spares (validate_manifest_consistency m count total)
unfolding validate_manifest_consistency
Spares-validate m count total = record { after = λ s. ground arith }

pub Spares-store_note :
    (user note : ℕ) (body : List ℕ) (m : NoteMetadata) (existing : Option Note)
    → Spares (store_note user note body m existing)
unfolding store_note
Spares-store_note user note body m none = record { after = λ s. ground arith }
Spares-store_note user note body m (some x) = record { after = λ s. ground arith }

pub ruleset spares_rules = (
  Spares-bind, Spares-pure, Spares-or_raise, Spares-raise_if, Spares-lift, Spares-get_active_note,
  Spares-get_note_attachment, Spares-get_note_blob, Spares-attachment_stats, Spares-check_if_match,
  Spares-validate, Spares-store_note, Spares-store_attachment, Spares-promote_upload_chunks,
  Spares-compute_upload_etag, Spares-recompute,
)

-- When the action fails, nothing is committed.
pub record FailsClean {A : Type 0} (m : Action A) : Type 0 where
  pub clean : (s : Session) (e : Failure) → (m s).0 ≡ err e → (m s).1.committed ≡ s.committed

FailsClean-continue :
    {A B : Type 0} (r : Result Failure A) (f : A → Action B)
    → ((a : A) → FailsClean (f a))
    → (s : Session) (e : Failure) → (continue r f s).0 ≡ err e
    → (continue r f s).1.committed ≡ s.committed
FailsClean-continue (ok a) f h s e failed = (h a).clean s e failed
FailsClean-continue (err c) f h s e failed = refl

pub FailsClean-bind :
    {A B : Type 0} (m : Action A) (f : A → Action B)
    → Spares m
    → ((a : A) → FailsClean (f a))
    → FailsClean (m >>= f)
FailsClean-bind m f p q = record {
  clean = λ s e failed. FailsClean-continue (m s).0 f q (m s).1 e failed ∙ (p.after s).committed;
}

pub FailsClean-commit : {A : Type 0} (a : A) → FailsClean (commit >>= λ _. pure a)
FailsClean-commit a = record { clean = λ s e failed. cc }

pub FailsClean-commit_last : FailsClean commit
FailsClean-commit_last = record { clean = λ s e failed. cc }

pub FailsClean-run :
    {A : Type 0} (m : Action A) (db : Db)
    → FailsClean m
    → (e : Failure) → (run m db).0 ≡ err e
    → (run m db).1 ≡ db
unfolding run
FailsClean-run m db h e failed = h.clean (open_session db) e failed

pub Spares-finalize :
    (sha256 : List ℕ → Text) (now user note att k total : ℕ) (content_type if_match : Option Text)
    → Spares (finalize_chunked_upload sha256 now user note att k total content_type if_match)
unfolding finalize_chunked_upload
Spares-finalize sha256 now user note att k total content_type if_match =
    search spares_rules depth 30
