-- ===== src/Auth/Accounts/Login.antt =====
-- app/auth/router.py: what follows a registration and a login.
use super_secure_notes_api.Prelude.{
  ℕ, ◌+◌, ◌*◌, ◌≤◌, ◌≡◌, refl, ap, ◌∙◌, Bool, false, none, some, List, arith, ==_refl, ltb,
  Bool-cases, Option-cases, inl, inr,
}
use super_secure_notes_api.Prelude.Result.{ok}
use super_secure_notes_api.Prelude.Text.{Text, text_eq, text_eq_refl}
use super_secure_notes_api.Db.Models.{User, RefreshToken, Db}
use super_secure_notes_api.Db.Table.{find, exists}
use super_secure_notes_api.Db.Table.Laws.{exists-update_keep, find-other}
use super_secure_notes_api.Db.Session.{Session, Action, open_session, run}
use super_secure_notes_api.Db.Session.Holds.{Holds, Holds-map, Holds-run}
use super_secure_notes_api.Auth.{
  Settings, RefreshResponse, has_hash, is_token, is_user, add_token, check_stored, the_one,
  create_access_token, create_refresh_token, rotate_refresh_token, refresh,
}
use super_secure_notes_api.Auth.Accounts.{
  AuthSuccessResponse, auth_response, issue_tokens, check_password, login,
}

module _ (sha256 : List ℕ → Text) (encode_jwt : ℕ → ℕ → ℕ → Text) (settings : Settings)
    (sql_lower lower : Text → Text) where
  -- The refresh token of the reply is the newest that is stored, is not revoked, and expires when the
  -- settings say; the users are as they were.
  abbrev pub Issued : ℕ → List ℕ → User → List User → AuthSuccessResponse → Db → Type 0
  Issued now raw user users r db =
      (t : RefreshToken) × (find (has_hash (sha256 raw)) db.refresh_tokens ≡ some t)
      × (t.user_id ≡ user.id)
      × (t.revoked_at ≡ none)
      × (t.expires_at ≡ now + settings.refresh_token_ttl_days * 86400)
      × (db.users ≡ users)
      × (r.refresh_token ≡ raw)
      × (r.user ≡ record { id = user.id; email = user.email; created_at = user.created_at })

  pub issue_tokens-Issued :
      (now now₁ id : ℕ) (raw : List ℕ) (user : User) (s : Session)
      → Holds
          (λ r s'. Issued now₁ raw user s.pending.users r s'.committed)
          (issue_tokens sha256 encode_jwt settings sql_lower lower now now₁ id raw user s)
  unfolding issue_tokens create_refresh_token add_token auth_response find
  issue_tokens-Issued now now₁ id raw user s =
      elim (Bool-cases (exists (is_token id) s.pending.refresh_tokens)) [
        | inl taken ↦ rw taken tt
        | inr fresh ↦ elim (Bool-cases (exists (has_hash (sha256 raw)) s.pending.refresh_tokens)) [
          | inl taken ↦ rw (fresh, taken) tt
          | inr free ↦
              rw (fresh, free)
                (
                  record {
                    id = id;
                    user_id = user.id;
                    token_hash = sha256 raw;
                    expires_at = now₁ + settings.refresh_token_ttl_days * 86400;
                    revoked_at = none;
                  },
                  rw (text_eq_refl (sha256 raw)) refl,
                  refl,
                  refl,
                  refl,
                  refl,
                  refl,
                  refl,
                )
        ]
      ]

  -- The user that a login found.
  login-Issued :
      (verify_password : Text → Text → Bool) (now now₁ id : ℕ) (raw : List ℕ)
      (email password : Text) (db : Db)
      → Holds
          (λ r s.
            (user : User) × (find (λ x. text_eq (sql_lower x.email) (lower email)) db.users
              ≡ some user)
            × Issued now₁ raw user db.users r s.committed)
          (login sha256 encode_jwt settings sql_lower lower verify_password now now₁ id raw email
            password
            (open_session db))
  unfolding login check_password
  login-Issued verify_password now now₁ id raw email password db =
      elim (Option-cases
        (find (λ (x : User). text_eq (sql_lower x.email) (lower email)) db.users)) [
          | inl e ↦ rw e tt
          | inr (user, e) ↦ elim (Bool-cases (verify_password password user.password_hash)) [
            | inr bad ↦ rw (e, bad) tt
            | inl good ↦
                rw (e, good)
                  (Holds-map _ _
                    (issue_tokens sha256 encode_jwt settings sql_lower lower now now₁ id raw user
                      (open_session db))
                    (issue_tokens-Issued now now₁ id raw user (open_session db))
                    (λ r s h. (user, refl, h)))
          ]
        ]

  -- A stored token that is not revoked and has not expired can be rotated.
  can_refresh :
      (now now₁ now₂ now₃ new_id : ℕ) (new_token raw : List ℕ) (db : Db) (t : RefreshToken)
      (user : User)
      → find (has_hash (sha256 raw)) db.refresh_tokens ≡ some t
      → t.revoked_at ≡ none
      → now ≤ t.expires_at
      → find (is_user t.user_id) db.users ≡ some user
      → exists (is_token new_id) db.refresh_tokens ≡ false
      → exists (has_hash (sha256 new_token)) db.refresh_tokens ≡ false
      → (r : RefreshResponse) × (db' : Db) × (run
            (refresh sha256 encode_jwt settings now now₁ now₂ now₃ new_id new_token raw)
            db
          ≡ (ok r, db'))
        × (r.refresh_token ≡ new_token)
  unfolding run refresh rotate_refresh_token check_stored the_one create_refresh_token add_token
  can_refresh now now₁ now₂ now₃ new_id new_token raw db t user found live time known fresh free =
      let revoke : RefreshToken → RefreshToken = λ x. record x { revoked_at = some now₁ } in
      let on_time : ltb t.expires_at now ≡ false = ground arith in
      let fresh' =
        exists-update_keep (is_token new_id) (is_token t.id) revoke db.refresh_tokens (λ y. refl)
        ∙ fresh in
      let free' =
        exists-update_keep (has_hash (sha256 new_token)) (is_token t.id) revoke db.refresh_tokens
          (λ y. refl)
        ∙ free in
      let m : Action RefreshResponse =
        refresh sha256 encode_jwt settings now now₁ now₂ now₃ new_id new_token raw in
      let r : RefreshResponse = record {
        access_token = create_access_token sha256 encode_jwt settings now₃ user.id;
        refresh_token = new_token;
        expires_in = settings.access_token_ttl_seconds;
      } in
      (
        r,
        (m (open_session db)).1.committed,
        rw (found, live, on_time, known, fresh', free') refl,
        refl,
      )

  -- After a login, the refresh token of its reply can be exchanged until it expires, for a token that is
  -- not stored already and under a new id: `refresh` returns the new token.
  pub login-refresh :
      (verify_password : Text → Text → Bool) (now now₁ id : ℕ) (raw : List ℕ)
      (email password : Text) (db db' : Db) (r : AuthSuccessResponse)
      (later later₁ later₂ later₃ new_id : ℕ) (new_token : List ℕ)
      → run
          (login sha256 encode_jwt settings sql_lower lower verify_password now now₁ id raw email
            password)
          db
        ≡ (ok r, db')
      → later ≤ now₁ + settings.refresh_token_ttl_days * 86400
      → exists (is_token new_id) db'.refresh_tokens ≡ false
      → exists (has_hash (sha256 new_token)) db'.refresh_tokens ≡ false
      → (r' : RefreshResponse) × (db'' : Db) × (run
            (refresh sha256 encode_jwt settings later later₁ later₂ later₃ new_id new_token
              r.refresh_token)
            db'
          ≡ (ok r', db''))
        × (r'.refresh_token ≡ new_token)
  login-refresh verify_password now now₁ id raw email password db db' r later later₁ later₂ later₃
        new_id new_token h time fresh free =
      let (user, by_email, (t, stored, owner, live, expires, users, same, _)) =
        Holds-run
          (λ r d.
            (user : User) × (find (λ x. text_eq (sql_lower x.email) (lower email)) db.users
              ≡ some user)
            × Issued now₁ raw user db.users r d)
          (login sha256 encode_jwt settings sql_lower lower verify_password now now₁ id raw email
            password)
          db db' r (login-Issued verify_password now now₁ id raw email password db) h in
      let (owner_row, known) =
        find-other (λ (x : User). text_eq (sql_lower x.email) (lower email)) (is_user t.user_id)
          db'.users user
          (ap (find (λ (x : User). text_eq (sql_lower x.email) (lower email))) users ∙ by_email)
          (rw owner (==_refl user.id)) in
      can_refresh later later₁ later₂ later₃ new_id new_token r.refresh_token db' t owner_row
        (rw same stored) live (rw expires time) known fresh free
