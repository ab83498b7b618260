-- ===== src/Db/Session.antt =====
-- app/db.py: the session that `get_db` gives a request. Statements act on `pending`; `commit` makes
-- that the committed state. A request that raises ends with no commit: closing the session rolls back
-- what was pending.
pub mod Holds
pub mod Within
use super_secure_notes_api.Prelude.{Bool, true, false}
use super_secure_notes_api.Prelude.Result.{Result, ok, err}
use super_secure_notes_api.Errors.{ApiError}
use super_secure_notes_api.Db.Models.{Db}

-- What a handler raises: an `APIError`, or an exception that nothing catches and that the server
-- answers with status 500.
pub data Failure : Type 0 where
  api_error : ApiError → Failure
  integrity_error multiple_results_found no_result_found unicode_decode_error : Failure

pub record Session : Type 0 where
  pub committed : Db
  pub pending : Db

abbrev pub Action : Type 0 → Type 0
Action A = Session → Result Failure A × Session

abbrev pub continue : {A B : Type 0} → Result Failure A → (A → Action B) → Action B
continue (ok a) f s = f a s
continue (err e) f s = (err e, s)

infixl 5 ◌>>=◌ ◌>>◌
abbrev pub ◌>>=◌ : {A B : Type 0} → Action A → (A → Action B) → Action B
◌>>=◌ m f s = continue (m s).0 f (m s).1

abbrev pub ◌>>◌ : {A B : Type 0} → Action A → Action B → Action B
m >> k = m >>= λ _. k

abbrev pub pure : {A : Type 0} → A → Action A
pure a s = (ok a, s)

abbrev pub raise : {A : Type 0} → Failure → Action A
raise e s = (err e, s)

-- `if c: raise e`
abbrev pub raise_if : Bool → Failure → Action (Unit {0})
raise_if true e s = (err e, s)
raise_if false e s = (ok tt, s)

abbrev pub lift : {A : Type 0} → Result Failure A → Action A
lift r s = (r, s)

-- A query sees what the session has written.
abbrev pub query : {A : Type 0} → (Db → A) → Action A
query f s = (ok (f s.pending), s)

abbrev pub modify : (Db → Db) → Action (Unit {0})
modify f s = (ok tt, record s { pending = f s.pending })

abbrev pub commit : Action (Unit {0})
commit s = (ok tt, record s { committed = s.pending })

abbrev pub open_session : Db → Session
open_session db = record { committed = db; pending = db }

-- A request on a database: its reply, and the database after it.
unfoldable pub run : {A : Type 0} → Action A → Db → Result Failure A × Db
run m db = ((m (open_session db)).0, (m (open_session db)).1.committed)
