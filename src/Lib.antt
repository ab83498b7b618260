-- ===== src/Lib.antt =====
-- super-secure-notes-api: a FastAPI service that stores end-to-end encrypted notes. A client puts
-- a note's body (an SSNT blob) and its attachments (uploaded in chunks); the service parses the
-- clear metadata of the blob, stores bytes, and keeps etags that clients use for If-Match. This
-- library models the handlers of app/auth, app/vault, app/notes and app/shares, the binary parsers
-- of app/parsers, the tables of app/models.py, the session of app/db.py, the URL of the database
-- in app/config.py and the migration 007 under alembic.
--
-- Parts, and the files of the source that each is about:
--
--   Prelude: Boolean tests, lists, integers (a chunk index may be negative), results, and
--   Python's text with a strict UTF-8 decoder.
--   Parsers: app/parsers. Buffer is ByteReader (a read returns the value and the moved reader,
--   or raises), Ssnt the note body, Ssnv the vault header. Buffer/Grammar, Ssnt/Format and
--   Ssnv/Format (with Ssnv/Fields) describe the accepted bytes with no parser.
--   Errors: app/errors.py and the errors that the handlers raise.
--   Db: app/models.py (Models), the SELECT, JOIN, UPDATE and DELETE statements of the source as
--   functions on lists of rows (Table), and app/db.py (Session): an action reads and writes the
--   pending tables, `commit` makes them the committed ones, and an action that raises commits
--   nothing more. Session/Holds and Session/Within are the two ways to reason about an action:
--   what holds when it returns, and what it keeps even if it fails.
--   Users: app/users/service.py, the search by email.
--   Auth: app/auth/tokens.py and the routes refresh and logout of app/auth/router.py.
--   Auth/Accounts is the rest of that router and app/auth/dependencies.py: registration, login,
--   the user of a request, and the deletion of an account.
--   Vault: app/vault/router.py, the vault header and the public key in it.
--   Notes: app/notes/service.py and app/notes/router.py. ChunkSize is the chunk arithmetic, Etag
--   the digests, Queries the WHERE tests and queries, Service the shared steps, Bodies and
--   Attachments the operations and their routes, Listing the list of notes, Reads the steps that
--   only read, Frame which tables the steps leave alone, Isolation which notes.
--   Uploads: app/notes/uploads.py, the upload sessions. Invariant says when the tables of
--   uploads agree, Steps, Lookup and Requests that each request keeps that, Complete what the
--   tests of complete_upload amount to, Blind and Isolation what the requests leave alone,
--   Accepted and Succeeds when chunks are taken and an upload is finished.
--   Shares: app/shares/router.py and app/shares/schemas.py, the shares of notes: Access is about
--   their removal, Grant about share_note, Listing about the list of shared notes.
--   History: the requests on bodies, attachments and uploads one after another on one database.
--   Bodies is a specification of the bodies alone; Sharing adds the requests that write shares.
--   Migrations: alembic/versions/007_migrate_attachment_data.py, which splits stored attachments
--   into chunks.
--   Config: app/config.py, the normalization of the database's URL and the secrets that a
--   deployment must set. Needs describes when TLS is needed.
--   Tests: small tables and blobs, and runs on them.
--
-- How the parts interact. complete_upload (Uploads) calls finalize_chunked_upload
-- (Notes/Attachments), which calls recompute_note_sync_metadata (Notes/Service), which parses the
-- stored body (Parsers/Ssnt). put_vault_header (Vault) parses with Parsers/Ssnv. login and
-- register (Auth/Accounts) create refresh tokens (Auth). The chunks that the migration writes are
-- those that read_chunk (Notes/Attachments) serves. A handler is an Action; `run` opens a session
-- on a database, runs the handler and gives its reply with the committed database.
--
-- Choices. A UUID and a timestamp are natural numbers, bytes are lists of numbers, a table is the
-- list of its rows. Clock readings and new random ids are arguments of the operation that takes
-- them. SHA-256, base64, bcrypt, the JWT functions, `str.lower`, the `lower` of SQL and the
-- functions of urllib.parse are parameters. A primary key that is taken raises integrity_error,
-- which no handler catches. The columns are unbounded numbers here: the overflow of an INTEGER or
-- BIGINT column is not modelled. The order of rows with equal sort keys, which SQL leaves open, is
-- that of the table. Three loops run on fuel: the UTF-8 decoder with the number of bytes, of which
-- each round reads one at least; the batches of the migration with the number of rows and one
-- more, and its slices with the number of bytes, each round taking one at least.
--
-- Not modelled: the wiring and the OpenAPI text of app/main.py, which has no state;
-- app/privacy.py, which fills two pages of HTML; the reading of the environment in app/config.py;
-- the pydantic checks of request bodies; and the migrations under alembic other than 007, which
-- define the schema. Requests are run one at a time: concurrent transactions are not modelled.
pub mod Prelude
pub mod Parsers
pub mod Errors
pub mod Db
pub mod Notes
pub mod Uploads
pub mod Users
pub mod Vault
pub mod Auth
pub mod Shares
pub mod Migrations
pub mod History
pub mod Config
pub mod Tests
