-- ===== src/Users.antt =====
-- app/users/service.py. `sql_lower` is the `lower` of SQL and `lower` is `str.lower`.
use super_secure_notes_api.Prelude.{Option}
use super_secure_notes_api.Prelude.Text.{Text, text_eq}
use super_secure_notes_api.Db.Models.{User}
use super_secure_notes_api.Db.Table.{find}
use super_secure_notes_api.Db.Session.{Action, query}

module _ (sql_lower lower : Text → Text) where
  unfoldable pub find_user_by_email : Text → Action (Option User)
  find_user_by_email email =
      query λ db. find (λ x. text_eq (sql_lower x.email) (lower email)) db.users
