-- ===== src/Auth/Accounts/Access.antt =====
-- app/auth/router.py and app/auth/dependencies.py: the access token of a login names its user.
use super_secure_notes_api.Prelude.{
  ℕ, ◌+◌, ◌≤◌, ◌≡◌, refl, sym, ap, ◌∙◌, Bool, true, Option, some, List, ==_refl, ==→eq, Bool-cases,
  Option-cases, inl, inr,
}
use super_secure_notes_api.Prelude.Result.{ok}
use super_secure_notes_api.Prelude.Text.{Text, codes, text_eq}
use super_secure_notes_api.Db.Models.{User, Db}
use super_secure_notes_api.Db.Table.{find, exists}
use super_secure_notes_api.Db.Table.Laws.{find-test, find-other}
use super_secure_notes_api.Db.Session.{Session, open_session, run}
use super_secure_notes_api.Db.Session.Holds.{Holds, Holds-map, Holds-run}
use super_secure_notes_api.Auth.{
  Settings, Claims, decode_access_token, create_access_token, has_hash, is_token, is_user,
  create_refresh_token, add_token,
}
use super_secure_notes_api.Auth.Accounts.{
  UserResponse, AuthSuccessResponse, auth_response, check_credentials, get_current_user,
  check_password, issue_tokens, login,
}

decoded_id :
    (jwt_decode : ℕ → Text → Option Claims) (uuid : Text → Option ℕ) (now : ℕ) (token : Text)
    (payload : Claims) (sub : Text) (id : ℕ)
    → jwt_decode now token ≡ some payload
    → payload.sub ≡ some sub
    → uuid sub ≡ some id
    → decode_access_token jwt_decode uuid now token ≡ some id
unfolding decode_access_token
decoded_id jwt_decode uuid now token payload sub id decodes named reads =
    rw (decodes, decode_access_token, named) reads

module _ (sha256 : List ℕ → Text) (encode_jwt : ℕ → ℕ → ℕ → Text) (settings : Settings)
    (sql_lower lower : Text → Text) where
  abbrev Names : ℕ → User → List User → AuthSuccessResponse → Db → Type 0
  Names now user users r db =
      (r.access_token ≡ create_access_token sha256 encode_jwt settings now user.id)
      × (r.user ≡ record { id = user.id; email = user.email; created_at = user.created_at })
      × (db.users ≡ users)

  issue_tokens-Names :
      (now now₁ id : ℕ) (raw : List ℕ) (user : User) (s : Session)
      → Holds
          (λ r s'. Names now user s.pending.users r s'.committed)
          (issue_tokens sha256 encode_jwt settings sql_lower lower now now₁ id raw user s)
  unfolding issue_tokens create_refresh_token add_token auth_response
  issue_tokens-Names now now₁ id raw user s =
      elim (Bool-cases (exists (is_token id) s.pending.refresh_tokens)) [
        | inl taken ↦ rw taken tt
        | inr fresh ↦ elim (Bool-cases (exists (has_hash (sha256 raw)) s.pending.refresh_tokens)) [
          | inl taken ↦ rw (fresh, taken) tt
          | inr free ↦ rw (fresh, free) (refl, refl, refl)
        ]
      ]

  login-Names :
      (verify_password : Text → Text → Bool) (now now₁ id : ℕ) (raw : List ℕ)
      (email password : Text) (db : Db)
      → Holds
          (λ r s.
            (user : User) × (find (λ x. text_eq (sql_lower x.email) (lower email)) db.users
              ≡ some user)
            × Names now user db.users r s.committed)
          (login sha256 encode_jwt settings sql_lower lower verify_password now now₁ id raw email
            password
            (open_session db))
  unfolding login check_password
  login-Names verify_password now now₁ id raw email password db =
      elim (Option-cases
        (find (λ (x : User). text_eq (sql_lower x.email) (lower email)) db.users)) [
          | inl e ↦ rw e tt
          | inr (user, e) ↦ elim (Bool-cases (verify_password password user.password_hash)) [
            | inr bad ↦ rw (e, bad) tt
            | inl good ↦
                rw (e, good)
                  (Holds-map _ _
                    (issue_tokens sha256 encode_jwt settings sql_lower lower now now₁ id raw user
                      (open_session db))
                    (issue_tokens-Names now now₁ id raw user (open_session db))
                    (λ r s h. (user, refl, h)))
          ]
        ]

  -- After a login, the access token of its reply, with the scheme "bearer" in any case, identifies the
  -- user of the reply until it expires. `jwt.decode` gives back the claims that `jwt.encode` was given,
  -- the id of the user among them as a text, until they expire, and `UUID` reads the text of an id.
  pub login-get_current_user :
      (verify_password : Text → Text → Bool) (now now₁ id : ℕ) (raw : List ℕ)
      (email password : Text) (db db' : Db) (r : AuthSuccessResponse) (str : ℕ → Text)
      (jwt_decode : ℕ → Text → Option Claims) (uuid : Text → Option ℕ) (later : ℕ) (scheme : Text)
      → ((u iat exp t : ℕ)
          → t ≤ exp
          → jwt_decode t (encode_jwt u iat exp)
            ≡ some (record { sub = some (str u); iat = iat; exp = exp }))
      → ((u : ℕ) → uuid (str u) ≡ some u)
      → run
          (login sha256 encode_jwt settings sql_lower lower verify_password now now₁ id raw email
            password)
          db
        ≡ (ok r, db')
      → later ≤ now + settings.access_token_ttl_seconds
      → text_eq (lower scheme) (codes "bearer") ≡ true
      → (user : User) × (run
            (get_current_user lower
              (decode_access_token jwt_decode uuid later)
              (some (scheme, r.access_token)))
            db'
          ≡ (ok user, db'))
        × (user.id ≡ r.user.id)
  unfolding run get_current_user check_credentials
  login-get_current_user verify_password now now₁ id raw email password db db' r str jwt_decode uuid
        later scheme decodes reads h time bearer =
      let (user, by_email, (access, same, users)) =
        Holds-run
          (λ r d.
            (user : User) × (find (λ x. text_eq (sql_lower x.email) (lower email)) db.users
              ≡ some user)
            × Names now user db.users r d)
          (login sha256 encode_jwt settings sql_lower lower verify_password now now₁ id raw email
            password)
          db db' r (login-Names verify_password now now₁ id raw email password db) h in
      let (row, known) =
        find-other (λ (x : User). text_eq (sql_lower x.email) (lower email)) (is_user user.id)
          db'.users user
          (ap (find (λ (x : User). text_eq (sql_lower x.email) (lower email))) users ∙ by_email)
          (==_refl user.id) in
      let decoded : decode_access_token jwt_decode uuid later
            (create_access_token sha256 encode_jwt settings now user.id)
          ≡ some user.id =
        decoded_id jwt_decode uuid later _ _ (str user.id) user.id
          (decodes user.id now (now + settings.access_token_ttl_seconds) later time) refl
          (reads user.id) in
      let its_id : row.id ≡ user.id =
        ==→eq row.id user.id (find-test (is_user user.id) db'.users row known) in
      (
        row,
        rw (bearer, access, decoded, known) refl,
        its_id ∙ ap (λ (u : UserResponse). u.id) (sym same),
      )
