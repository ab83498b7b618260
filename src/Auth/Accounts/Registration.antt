-- ===== src/Auth/Accounts/Registration.antt =====
-- app/auth/router.py: an account that was registered can log in.
use super_secure_notes_api.Prelude.{
  ℕ, ◌≡◌, refl, ap, sym, ◌∙◌, Bool, true, false, some, List, ◌∷◌, Bool-cases, Option-cases, inl,
  inr,
}
use super_secure_notes_api.Prelude.Result.{ok}
use super_secure_notes_api.Prelude.Text.{Text, text_eq, text_eq_refl}
use super_secure_notes_api.Db.Models.{User, Db}
use super_secure_notes_api.Db.Table.{find, exists}
use super_secure_notes_api.Db.Session.{Action, open_session, run}
use super_secure_notes_api.Db.Session.Holds.{Holds, Holds-map, Holds-run}
use super_secure_notes_api.Auth.{
  Settings, has_hash, is_token, is_user, add_token, create_access_token, create_refresh_token,
}
use super_secure_notes_api.Auth.Accounts.{
  AuthSuccessResponse, add_user, auth_response, issue_tokens, register, check_password, login,
}
use super_secure_notes_api.Auth.Accounts.Login.{issue_tokens-Issued}

module _ (sha256 : List ℕ → Text) (encode_jwt : ℕ → ℕ → ℕ → Text) (settings : Settings)
    (sql_lower lower : Text → Text) where
  -- The user that a registration stored.
  register-Issued :
      (hash_password : Text → Text → Text) (created_at now now₁ user_id id : ℕ) (raw : List ℕ)
      (salt email password : Text) (db : Db)
      → Holds
          (λ r s.
            (user : User) × (find
                (λ x. text_eq (sql_lower x.email) (sql_lower (lower email)))
                s.committed.users
              ≡ some user)
            × (user.password_hash ≡ hash_password password salt)
            × (r.user ≡ record { id = user.id; email = user.email; created_at = user.created_at }))
          (register sha256 encode_jwt settings sql_lower lower hash_password created_at now now₁
            user_id id raw salt email password
            (open_session db))
  unfolding register add_user find
  register-Issued hash_password created_at now now₁ user_id id raw salt email password db =
      let user : User = record {
        id = user_id;
        email = lower email;
        password_hash = hash_password password salt;
        created_at = created_at;
      } in
      elim (Option-cases
        (find (λ (x : User). text_eq (sql_lower x.email) (lower email)) db.users)) [
          | inr (x, e) ↦ rw e tt
          | inl none_yet ↦ elim (Bool-cases (exists (is_user user_id) db.users)) [
            | inl taken ↦ rw (none_yet, taken) tt
            | inr fresh ↦
                elim (Bool-cases (exists (λ (y : User). text_eq y.email (lower email)) db.users)) [
                  | inl taken ↦ rw (none_yet, fresh, taken) tt
                  | inr free ↦
                      rw (none_yet, fresh, free)
                        (Holds-map _ _
                          (issue_tokens sha256 encode_jwt settings sql_lower lower now now₁ id raw
                            user
                            (record {
                              committed = record db { users = user ∷ db.users };
                              pending = record db { users = user ∷ db.users };
                            }))
                          (issue_tokens-Issued sha256 encode_jwt settings sql_lower lower now now₁
                            id raw user
                            (record {
                              committed = record db { users = user ∷ db.users };
                              pending = record db { users = user ∷ db.users };
                            }))
                          (λ r s (t, _, _, _, _, users, _, same). (
                            user,
                            ap
                                  (find (λ (x : User).
                                    text_eq (sql_lower x.email) (sql_lower (lower email))))
                                  users
                                ∙ rw (text_eq_refl (sql_lower (lower email))) refl,
                            refl,
                            same,
                          )))
                ]
          ]
        ]

  can_login :
      (verify_password : Text → Text → Bool) (now now₁ id : ℕ) (raw : List ℕ)
      (email password : Text) (db : Db) (user : User)
      → find (λ x. text_eq (sql_lower x.email) (lower email)) db.users ≡ some user
      → verify_password password user.password_hash ≡ true
      → exists (is_token id) db.refresh_tokens ≡ false
      → exists (has_hash (sha256 raw)) db.refresh_tokens ≡ false
      → (r : AuthSuccessResponse) × (db' : Db) × (run
            (login sha256 encode_jwt settings sql_lower lower verify_password now now₁ id raw email
              password)
            db
          ≡ (ok r, db'))
        × (r.user ≡ record { id = user.id; email = user.email; created_at = user.created_at })
        × (r.refresh_token ≡ raw)
  unfolding run login check_password issue_tokens create_refresh_token add_token auth_response
  can_login verify_password now now₁ id raw email password db user known good fresh free =
      let m : Action AuthSuccessResponse =
        login sha256 encode_jwt settings sql_lower lower verify_password now now₁ id raw email
          password in
      let r : AuthSuccessResponse =
        auth_response settings user (create_access_token sha256 encode_jwt settings now user.id)
          raw in
      (r, (m (open_session db)).1.committed, rw (known, good, fresh, free) refl, refl, refl)

  -- After a registration, a login with the same email and password succeeds, with a refresh token that
  -- is not stored already and under a new id, and gives the same user. The password that was hashed is
  -- accepted by `checkpw`, and the `lower` of SQL leaves what `str.lower` gave as it is.
  pub register-login :
      (hash_password : Text → Text → Text) (verify_password : Text → Text → Bool)
      (created_at now now₁ user_id id : ℕ) (raw : List ℕ) (salt email password : Text) (db db' : Db)
      (r : AuthSuccessResponse) (later later₁ new_id : ℕ) (new_token : List ℕ)
      → ((p s : Text) → verify_password p (hash_password p s) ≡ true)
      → ((e : Text) → sql_lower (lower e) ≡ lower e)
      → run
          (register sha256 encode_jwt settings sql_lower lower hash_password created_at now now₁
            user_id id raw salt email password)
          db
        ≡ (ok r, db')
      → exists (is_token new_id) db'.refresh_tokens ≡ false
      → exists (has_hash (sha256 new_token)) db'.refresh_tokens ≡ false
      → (r' : AuthSuccessResponse) × (db'' : Db) × (run
            (login sha256 encode_jwt settings sql_lower lower verify_password later later₁ new_id
              new_token email password)
            db'
          ≡ (ok r', db''))
        × (r'.user ≡ r.user)
        × (r'.refresh_token ≡ new_token)
  register-login hash_password verify_password created_at now now₁ user_id id raw salt email
        password db db' r later later₁ new_id new_token check idem h fresh free =
      let (user, stored, hashed, same) =
        Holds-run
          (λ r d.
            (user : User) × (find (λ x. text_eq (sql_lower x.email) (sql_lower (lower email)))
                d.users
              ≡ some user)
            × (user.password_hash ≡ hash_password password salt)
            × (r.user ≡ record { id = user.id; email = user.email; created_at = user.created_at }))
          (register sha256 encode_jwt settings sql_lower lower hash_password created_at now now₁
            user_id id raw salt email password)
          db db' r
          (register-Issued hash_password created_at now now₁ user_id id raw salt email password db)
          h in
      let known =
        ap (λ k. find (λ (x : User). text_eq (sql_lower x.email) k) db'.users) (sym (idem email))
        ∙ stored in
      let (r', db'', done, same', new) =
        can_login verify_password later later₁ new_id new_token email password db' user known
          (rw hashed (check password salt)) fresh free in
      (r', db'', done, same' ∙ sym same, new)
