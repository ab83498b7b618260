-- ===== src/Config.antt =====
-- app/config.py: the URL of the database and the secrets that a deployment must set. `urlsplit`,
-- `parse_qsl`, `urlencode`, `urlunsplit` and `str.lower` are parameters; `on_render` is whether the
-- environment has `RENDER`.
pub mod Query
pub mod Needs
use Prim.Native.String.{String}
use super_secure_notes_api.Prelude.{
  ℕ, Bool, true, false, not, ◌&&◌, ◌||◌, Option, none, some, List, [], ◌∷◌, ◌++◌, ◌==◌,
  if◌then◌else◌,
}
use super_secure_notes_api.Prelude.Text.{Text, codes, text_eq}
use super_secure_notes_api.Db.Table.{find, exists, remove, update}

abbrev pub default_jwt_secret : Text
default_jwt_secret = codes "dev-secret-change-in-production"

abbrev pub local_db_hosts : List Text
local_db_hosts = codes "localhost" ∷ codes "127.0.0.1" ∷ codes "::1" ∷ codes "db" ∷ []

-- `SplitResult`
pub record UrlParts : Type 0 where
  pub scheme : Text
  pub netloc : Text
  pub hostname : Option Text
  pub path : Text
  pub query : Text
  pub fragment : Text

-- `s.startswith(prefix)`: what follows the prefix.
unfoldable pub after_prefix : Text → Text → Option Text
after_prefix [] s = some s
after_prefix (c ∷ prefix) [] = none
after_prefix (c ∷ prefix) (d ∷ s) =
    let rest = after_prefix prefix s in if c == d then rest else none

abbrev pub is_some {ℓ} : {A : Type ℓ} → Option A → Bool
is_some none = false
is_some (some a) = true

-- `word in s`
unfoldable pub contains : Text → Text → Bool
unfolding after_prefix
contains word [] = is_some (after_prefix word [])
contains word (c ∷ s) = is_some (after_prefix word (c ∷ s)) || contains word s

-- The driver in the URL.
unfoldable pub with_driver : Text → Text
unfolding after_prefix
with_driver url = elim (after_prefix (codes "postgres://") url) [
  | some rest ↦ codes "postgresql+asyncpg://" ++ rest
  | none ↦ elim (after_prefix (codes "postgresql://") url) [
    | some rest ↦ codes "postgresql+asyncpg://" ++ rest
    | none ↦ url
  ]
]

-- A `dict` from names to values, as its items in order.
abbrev pub Query : Type 0
Query = List (Text × Text)

abbrev pub has_name : Text → Text × Text → Bool
has_name name item = text_eq item.0 name

abbrev pub ssl : Text
ssl = codes "ssl"

abbrev pub sslmode : Text
sslmode = codes "sslmode"

-- `query[name] = value`
unfoldable pub set_item : Text → Text → Query → Query
unfolding exists update
set_item name value query =
    if exists (has_name name) query
    then update (has_name name) (λ item. (item.0, value)) query
    else query ++ ((name, value) ∷ [])

-- `dict(items)`
unfoldable pub dict_of : List (Text × Text) → Query → Query
dict_of [] query = query
dict_of (item ∷ items) query = dict_of items (set_item item.0 item.1 query)

unfoldable pub is_local : Text → Bool
unfolding exists
is_local host = exists (text_eq host) local_db_hosts

unfoldable pub is_render_host : Text → Bool
unfolding contains after_prefix
is_render_host host =
    contains (codes "render.com") host || is_some (after_prefix (codes "dpg-") host)

-- `sslmode and sslmode != "disable"`, for the item that `query.pop("sslmode", None)` took.
abbrev pub wants_ssl : Option (Text × Text) → Bool
wants_ssl none = false
wants_ssl (some (_, [])) = false
wants_ssl (some (_, c ∷ mode)) = not (text_eq (c ∷ mode) (codes "disable"))

abbrev pub require_ssl_if : Bool → Query → Query
unfolding set_item
require_ssl_if true query = set_item ssl (codes "require") query
require_ssl_if false query = query

-- What becomes of the query.
unfoldable pub normalize_query : Bool → Text → Query → Query
unfolding find remove exists is_local is_render_host
normalize_query on_render host query =
    let popped = remove (has_name sslmode) query in
    let asked =
      require_ssl_if
        (wants_ssl (find (has_name sslmode) query) && not (exists (has_name ssl) popped)) popped in
    require_ssl_if
      (not (exists (has_name ssl) asked)
        && (not (is_local host) && (on_render || is_render_host host)))
      asked

module _ (urlsplit : Text → UrlParts) (lower : Text → Text) where
  -- `(parts.hostname or "").lower()`
  unfoldable pub host_of : Text → Text
  host_of url = elim ((urlsplit url).hostname) [ none ↦ lower [] | some name ↦ lower name ]

  unfoldable pub normalize_database_url :
      (Text → List (Text × Text)) → (Query → Text) → (UrlParts → Text) → Bool → Text → Text
  unfolding host_of
  normalize_database_url parse_qsl urlencode urlunsplit on_render given =
      let url = with_driver given in
      let parts = urlsplit url in
      urlunsplit (record parts {
        query =
            urlencode
              (normalize_query on_render (host_of url) (dict_of (parse_qsl parts.query) []));
      })

  -- The `ValueError` of `_require_render_secrets`, if it raises one.
  unfoldable pub require_render_secrets : Bool → Text → Text → Option String
  unfolding host_of
  require_render_secrets on_render jwt_secret database_url =
      if not on_render
      then none
      else if text_eq jwt_secret default_jwt_secret
      then some "JWT_SECRET must be set to a non-default value on Render"
      else if text_eq (host_of database_url) [] || is_local (host_of database_url)
      then some
          "DATABASE_URL is missing or still points at localhost. On the Render web service (not the database), set DATABASE_URL to the Postgres Internal Connection String."
      else none
