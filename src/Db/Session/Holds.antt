-- ===== src/Db/Session/Holds.antt =====
-- app/db.py: what holds of the reply and the session of an action, when it returns one.
use super_secure_notes_api.Prelude.{◌≡◌, refl, subst, Bool, true, false}
use super_secure_notes_api.Prelude.Result.{Result, ok, err}
use super_secure_notes_api.Db.Models.{Db}
use super_secure_notes_api.Db.Session.{
  Session, Action, Failure, continue, ◌>>=◌, ◌>>◌, raise_if, lift, open_session, run,
}

abbrev pub Holds : {A : Type 0} → (A → Session → Type 0) → Result Failure A × Session → Type 0
Holds Q (ok a, s) = Q a s
Holds Q (err e, s) = Unit

module _ {B : Type 0} (R : B → Session → Type 0) where
  pub Holds-continue :
      {A : Type 0} (Q : A → Session → Type 0) (x : Result Failure A × Session) (f : A → Action B)
      → Holds Q x
      → ((a : A) (s : Session) → Q a s → Holds R (f a s))
      → Holds R (continue x.0 f x.1)
  Holds-continue Q (ok a, s) f h k = k a s h
  Holds-continue Q (err e, s) f h k = tt

  -- The steps after a test run with the test false.
  pub Holds-raise_if :
      (b : Bool) (e : Failure) (k : Action B) (s : Session)
      → (b ≡ false → Holds R (k s))
      → Holds R ((raise_if b e >> k) s)
  Holds-raise_if true e k s h = tt
  Holds-raise_if false e k s h = h refl

  pub Holds-lift :
      {A : Type 0} (r : Result Failure A) (f : A → Action B) (s : Session)
      → ((a : A) → r ≡ ok a → Holds R (f a s))
      → Holds R ((lift r >>= f) s)
  Holds-lift (ok a) f s h = h a refl
  Holds-lift (err e) f s h = tt

  pub Holds-map :
      (Q : B → Session → Type 0) (x : Result Failure B × Session)
      → Holds Q x
      → ((b : B) (s : Session) → Q b s → R b s)
      → Holds R x
  Holds-map Q (ok b, s) h k = k b s h
  Holds-map Q (err e, s) h k = tt

module _ {B : Type 0} (R : B → Db → Type 0) where
  abbrev Leaves : Result Failure B × Db → Type 0
  Leaves (ok b, db) = R b db
  Leaves (err e, db) = Unit

  Holds-Leaves :
      (x : Result Failure B × Session)
      → Holds (λ b s. R b s.committed) x
      → Leaves (x.0, x.1.committed)
  Holds-Leaves (ok b, s) h = h
  Holds-Leaves (err e, s) h = tt

  -- What holds of the committed tables holds of the database after the request.
  pub Holds-run :
      (m : Action B) (db db' : Db) (b : B)
      → Holds (λ b s. R b s.committed) (m (open_session db))
      → run m db ≡ (ok b, db')
      → R b db'
  unfolding run
  Holds-run m db db' b h e = subst Leaves e (Holds-Leaves (m (open_session db)) h)
