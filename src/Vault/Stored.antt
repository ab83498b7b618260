-- ===== src/Vault/Stored.antt =====
-- app/vault/router.py: what the vault routes serve after `put_vault_header`.
use super_secure_notes_api.Prelude.{
  ℕ, zero, suc, ◌≡◌, ◌≢◌, ◌⊎◌, refl, ap, ◌∙◌, Option, none, some, List, ◌∷◌, arith, ==_refl,
  Option-cases, inl, inr,
}
use super_secure_notes_api.Prelude.Result.{ok, err}
use super_secure_notes_api.Prelude.Text.{Text, text_eq}
use super_secure_notes_api.Parsers.Ssnv.{VaultHeaderMetadata, parse_vault_header}
use super_secure_notes_api.Parsers.Ssnv.Format.{parse_vault_header_iff}
use super_secure_notes_api.Db.Models.{User, VaultHeader, Db}
use super_secure_notes_api.Db.Table.{find}
use super_secure_notes_api.Db.Table.Laws.{assigned, find-update}
use super_secure_notes_api.Db.Session.{Session, api_error, open_session, run}
use super_secure_notes_api.Db.Session.Holds.{
  Holds, Holds-run, Holds-continue, Holds-raise_if, Holds-lift,
}
use super_secure_notes_api.Notes.Service.{or_validation_error}
use super_secure_notes_api.Notes.Bodies.{is_empty}
use super_secure_notes_api.Notes.Bodies.Stored.{or_validation_error-ok}
use super_secure_notes_api.Vault.{
  missing_public_key, is_header, or_one, store_header, put_vault_header, get_vault_header,
  get_public_key_by_email,
}

-- The header that is found is the one that was put.
abbrev HasHeader : ℕ → List ℕ → List ℕ → ℕ → Session → Unit {0} → Session → Type 0
HasHeader user body key algorithm s _ s' =
    (x : VaultHeader) × (find (is_header user) s'.pending.vault_headers ≡ some x)
    × (x.header_data ≡ body)
    × (x.public_key ≡ key)
    × (x.algorithm_id ≡ algorithm)
    × (s'.pending.users ≡ s.pending.users)

store_header-HasHeader :
    (user : ℕ) (body key : List ℕ) (algorithm : ℕ) (o : Option VaultHeader) (s : Session)
    → find (is_header user) s.pending.vault_headers ≡ o
    → Holds (HasHeader user body key algorithm s) (store_header user body key algorithm o s)
unfolding store_header find
store_header-HasHeader user body key algorithm none s found = (
  record { user_id = user; header_data = body; public_key = key; algorithm_id = algorithm },
  rw (==_refl user) refl,
  refl,
  refl,
  refl,
  refl,
)
store_header-HasHeader user body key algorithm (some x) s found = (
  _,
  find-update (is_header user) (is_header user) _ s.pending.vault_headers (λ y. refl) (λ y hit. hit)
      ∙ ap (assigned _) found,
  refl,
  refl,
  refl,
  refl,
)

-- The algorithm that is served for a header: the header's own, but 1 where it has 0.
abbrev pub Serves : VaultHeaderMetadata → ℕ → Type 0
Serves metadata algorithm =
    ((metadata.algorithm_id ≡ some algorithm) × (algorithm ≢ 0))
    ⊎ ((metadata.algorithm_id ≡ some 0) × (algorithm ≡ 1))

or_one-Serves :
    (m : VaultHeaderMetadata) (a : ℕ) → m.algorithm_id ≡ some a → Serves m (or_one m.algorithm_id)
or_one-Serves m zero e = rw e (inr (refl, refl))
or_one-Serves m (suc a) e = rw e (inl (refl, omega arith))

-- A header with a public key has an algorithm.
served_algorithm :
    (blob key : List ℕ) (m : VaultHeaderMetadata)
    → parse_vault_header blob ≡ ok m
    → m.public_key ≡ some key
    → Serves m (or_one m.algorithm_id)
served_algorithm blob key m parsed has_key =
    elim ((parse_vault_header_iff blob m).0 parsed).2.identity [
      | inl (_, same) ↦
          let no_key : m.public_key ≡ none = ap (λ (x : VaultHeaderMetadata). x.public_key) same in
          cc
      | inr (a, _, _, _, _, _, same) ↦
          or_one-Serves m a (ap (λ (x : VaultHeaderMetadata). x.algorithm_id) same)
    ]

-- What the routes serve of the header `body` of a user.
pub record Published (b64encode : List ℕ → Text) (sql_lower lower : Text → Text) (user : User)
    (email : Text) (body : List ℕ) (db : Db) : Type 0 where
  pub metadata : VaultHeaderMetadata
  pub key : List ℕ
  pub algorithm : ℕ
  pub serves : Serves metadata algorithm
  pub parsed : parse_vault_header body ≡ ok metadata
  pub has_key : metadata.public_key ≡ some key
  pub read_back : run (get_vault_header user.id) db ≡ (ok body, db)
  pub published :
      run (get_public_key_by_email b64encode sql_lower lower email) db
      ≡ (ok (record { public_key = b64encode key; algorithm_id = algorithm }), db)

serve_header :
    (user : ℕ) (x : VaultHeader) (db : Db)
    → find (is_header user) db.vault_headers ≡ some x
    → run (get_vault_header user) db ≡ (ok x.header_data, db)
unfolding run get_vault_header
serve_header user x db there = rw there refl

serve_key :
    (b64encode : List ℕ → Text) (sql_lower lower : Text → Text) (email : Text) (user : User)
    (x : VaultHeader) (db : Db)
    → find (λ u. text_eq (sql_lower u.email) (lower email)) db.users ≡ some user
    → find (is_header user.id) db.vault_headers ≡ some x
    → run (get_public_key_by_email b64encode sql_lower lower email) db
      ≡ (ok (record { public_key = b64encode x.public_key; algorithm_id = x.algorithm_id }), db)
unfolding run get_public_key_by_email
serve_key b64encode sql_lower lower email user x db known there = rw (known, there) refl

-- When `put_vault_header` succeeds, for a user that an email finds, the body parses, with a public key;
-- `get_vault_header` serves the body; and `get_public_key_by_email` serves, at that email, that key and
-- the algorithm that the body names, or 1 if it names 0.
pub put_vault_header-Published :
    (b64encode : List ℕ → Text) (sql_lower lower : Text → Text) (user : User) (email : Text)
    (body : List ℕ) (db db' : Db)
    → find (λ x. text_eq (sql_lower x.email) (lower email)) db.users ≡ some user
    → run (put_vault_header user.id body) db ≡ (ok tt, db')
    → Published b64encode sql_lower lower user email body db'
unfolding put_vault_header
put_vault_header-Published b64encode sql_lower lower user email body db db' known h =
    let P : Db → Type 0 = Published b64encode sql_lower lower user email body in
    let R : Unit {0} → Session → Type 0 = λ _ s. P s.committed in
    let s : Session = open_session db in
    Holds-run (λ _. P) (put_vault_header user.id body) db db' tt
      (Holds-raise_if R (is_empty body) _ _ s λ _.
        Holds-lift R (or_validation_error (parse_vault_header body)) _ s λ m parsed.
          elim (Option-cases m.public_key) [
            | inl no_key ↦ rw no_key tt
            | inr (key, has_key) ↦ rw has_key (
                Holds-continue R (HasHeader user.id body key (or_one m.algorithm_id) s)
                  (store_header user.id body key (or_one m.algorithm_id)
                    (find (is_header user.id) db.vault_headers) s)
                  _ (store_header-HasHeader user.id body key (or_one m.algorithm_id) _ s refl)
                  λ _ s₁ (x, there, same_body, same_key, same_algorithm, users). record {
                    metadata = m;
                    key = key;
                    algorithm = or_one m.algorithm_id;
                    serves =
                        served_algorithm body key m
                          (or_validation_error-ok (parse_vault_header body) m parsed) has_key;
                    parsed = or_validation_error-ok (parse_vault_header body) m parsed;
                    has_key = has_key;
                    read_back =
                        serve_header user.id x s₁.pending there
                        ∙ ap (λ b. (ok b, s₁.pending)) same_body;
                    published =
                        serve_key b64encode sql_lower lower email user x s₁.pending
                          (ap (find (λ x. text_eq (sql_lower x.email) (lower email))) users ∙ known)
                          there
                        ∙ (λ i. (
                          ok (record {
                            public_key = b64encode (same_key i);
                            algorithm_id = same_algorithm i;
                          }),
                          s₁.pending,
                        ));
                  })
          ])
      h

version_1_no_key :
    (blob : List ℕ) (m : VaultHeaderMetadata)
    → parse_vault_header blob ≡ ok m
    → m.format_version ≡ 1
    → m.public_key ≡ none
version_1_no_key blob m parsed one = elim ((parse_vault_header_iff blob m).0 parsed).2.identity [
  | inl (_, same) ↦ ap (λ (x : VaultHeaderMetadata). x.public_key) same
  | inr (a, key, p, e, len, raw, same) ↦
      absurd (omega (arith, one, ap (λ (x : VaultHeaderMetadata). x.format_version) same))
]

-- A header of version 1 is well formed, but has no public key: `put_vault_header` refuses it with
-- status 400, and the database is as it was.
pub put_vault_header_v1 :
    (user_id : ℕ) (b : ℕ) (bytes : List ℕ) (m : VaultHeaderMetadata) (db : Db)
    → parse_vault_header (b ∷ bytes) ≡ ok m
    → m.format_version ≡ 1
    → run (put_vault_header user_id (b ∷ bytes)) db ≡ (err (api_error missing_public_key), db)
unfolding run put_vault_header or_validation_error
put_vault_header_v1 user b bytes m db parsed one =
    let no_key = version_1_no_key (b ∷ bytes) m parsed one in rw (parsed, no_key) refl
