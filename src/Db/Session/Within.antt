-- ===== src/Db/Session/Within.antt =====
-- app/db.py: what an action that may fail keeps of the committed and of the pending tables.
use super_secure_notes_api.Prelude.{Bool, true, false}
use super_secure_notes_api.Prelude.Result.{Result, ok, err}
use super_secure_notes_api.Db.Models.{Db}
use super_secure_notes_api.Db.Session.{
  Session, Action, Failure, continue, pure, ◌>>=◌, raise, raise_if, lift, query, modify, commit,
  open_session, run,
}

module _ (P : Db → Type 0) where
  -- `P` holds of both states of the tables afterwards if it did before.
  pub record Within {A : Type 0} (m : Action A) : Type 0 where
    pub after :
        (s : Session) → P s.committed → P s.pending → P (m s).1.committed × P (m s).1.pending

  Within-continue :
      {A B : Type 0} (r : Result Failure A) (f : A → Action B)
      → ((a : A) → Within (f a))
      → (s : Session) → P s.committed
      → P s.pending
      → P (continue r f s).1.committed × P (continue r f s).1.pending
  Within-continue (ok a) f h s c p = (h a).after s c p
  Within-continue (err e) f h s c p = (c, p)

  pub Within-bind :
      {A B : Type 0} (m : Action A) (f : A → Action B)
      → Within m
      → ((a : A) → Within (f a))
      → Within (m >>= f)
  Within-bind m f h k = record {
    after = λ s c p. let (c', p') = h.after s c p in Within-continue (m s).0 f k (m s).1 c' p';
  }

  pub Within-pure : {A : Type 0} (a : A) → Within (pure a)
  Within-pure a = record { after = λ s c p. (c, p) }

  pub Within-raise_if : (b : Bool) (e : Failure) → Within (raise_if b e)
  Within-raise_if true e = record { after = λ s c p. (c, p) }
  Within-raise_if false e = record { after = λ s c p. (c, p) }

  pub Within-raise : {A : Type 0} (e : Failure) → Within (raise {A = A} e)
  Within-raise e = record { after = λ s c p. (c, p) }

  pub Within-lift : {A : Type 0} (r : Result Failure A) → Within (lift r)
  Within-lift r = record { after = λ s c p. (c, p) }

  pub Within-query : {A : Type 0} (f : Db → A) → Within (query f)
  Within-query f = record { after = λ s c p. (c, p) }

  pub Within-commit : Within commit
  Within-commit = record { after = λ s c p. (p, p) }

  pub Within-modify : (f : Db → Db) → ((db : Db) → P db → P (f db)) → Within (modify f)
  Within-modify f h = record { after = λ s c p. (c, h s.pending p) }

  pub Within-run : {A : Type 0} (m : Action A) (db : Db) → Within m → P db → P (run m db).1
  unfolding run
  Within-run m db h p = (h.after (open_session db) p p).0
