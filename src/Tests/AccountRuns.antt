-- ===== src/Tests/AccountRuns.antt =====
-- Runs of the vault routes and of the accounts on small tables. `hash_password` and `verify_password`
-- are stand-ins: a password is its own hash.
use super_secure_notes_api.Prelude.{
  ℕ, zero, suc, ◌≡◌, refl, Bool, true, false, Option, none, some, List, [], ◌∷◌, ◌++◌, drop, arith,
}
use super_secure_notes_api.Prelude.Result.{ok, err}
use super_secure_notes_api.Prelude.Text.{Text, codes, text_eq, text_eq_refl}
use super_secure_notes_api.Parsers.Buffer.{
  expect_magic, read_fixed, read_u8, read_u32_be, read_length_prefixed_bytes, at_end,
}
use super_secure_notes_api.Parsers.Ssnv.{parse_vault_header}
use super_secure_notes_api.Db.Models.{User, Db}
use super_secure_notes_api.Db.Table.{find, exists}
use super_secure_notes_api.Db.Session.{run, api_error}
use super_secure_notes_api.Notes.Service.{or_validation_error}
use super_secure_notes_api.Auth.{
  RefreshResponse, create_refresh_token, add_token, refresh, is_token, has_hash,
}
use super_secure_notes_api.Auth.Accounts.{
  AuthSuccessResponse, register, login, check_password, issue_tokens, auth_response, add_user,
  delete_account, get_current_user, unknown_user,
}
use super_secure_notes_api.Auth.{Claims, decode_access_token}
use super_secure_notes_api.Auth.Accounts.Access.{login-get_current_user}
use super_secure_notes_api.Prelude.{◌≤◌, leb, if◌then◌else◌}
use super_secure_notes_api.Auth.Accounts.Login.{login-refresh}
use super_secure_notes_api.Auth.Accounts.Registration.{register-login}
use super_secure_notes_api.Auth.Accounts.Erasure.{Erased, Untouched, delete_account-Erased}
use super_secure_notes_api.Vault.{missing_public_key, put_vault_header, store_header}
use super_secure_notes_api.Vault.Stored.{Published, put_vault_header-Published, put_vault_header_v1}
use super_secure_notes_api.Tests.Samples.{
  settings, encode, user, digest, lower_case, header, header_metadata, one_share, one_token,
}

abbrev repeat : ℕ → List ℕ
repeat zero = []
repeat (suc n) = 5 ∷ repeat n

-- A header of version 2 with the algorithm 0.
abbrev header_2 : List ℕ
header_2 =
    codes "SSNV"
    ++ (2 ∷ 1 ∷ [])
    ++ repeat 32
    ++ (0 ∷ 0 ∷ 9 ∷ 9 ∷ [])
    ++ (0 ∷ 0 ∷ 0 ∷ 1 ∷ 9 ∷ [])
    ++ (0 ∷ 0 ∷ 0 ∷ 1 ∷ 8 ∷ [])
    ++ (0 ∷ [])
    ++ repeat 32
    ++ (0 ∷ 0 ∷ 0 ∷ 1 ∷ 8 ∷ [])

a_known :
    find (λ x. text_eq (lower_case x.email) (lower_case (codes "a@b"))) one_token.users ≡ some user
unfolding find text_eq
a_known = refl

abbrev with_header : Db
with_header = (run (put_vault_header 1 header_2) one_token).1

header_put : run (put_vault_header 1 header_2) one_token ≡ (ok tt, with_header)
unfolding run put_vault_header parse_vault_header expect_magic read_fixed text_eq read_u8
    read_u32_be read_length_prefixed_bytes at_end or_validation_error find store_header
header_put = refl

put_vault_header-Published_example :
    Published digest lower_case lower_case user (codes "a@b") header_2 with_header
put_vault_header-Published_example =
    put_vault_header-Published digest lower_case lower_case user (codes "a@b") header_2 one_token
      with_header a_known header_put

header_parses : parse_vault_header (83 ∷ drop 1 header) ≡ ok header_metadata
unfolding parse_vault_header expect_magic read_fixed text_eq read_u8 read_u32_be
    read_length_prefixed_bytes at_end
header_parses = refl

put_vault_header_v1_example :
    run (put_vault_header 1 (83 ∷ drop 1 header)) one_token
    ≡ (err (api_error missing_public_key), one_token)
put_vault_header_v1_example =
    put_vault_header_v1 1 83 (drop 1 header) header_metadata one_token header_parses refl

abbrev hash : Text → Text → Text
hash password salt = password

abbrev verify : Text → Text → Bool
verify password stored = text_eq password stored

abbrev logged_in : Db
logged_in =
    (run
      (login digest encode settings lower_case lower_case verify 10 11 6 (3 ∷ []) (codes "a@b")
        (codes "p"))
      one_token).1

logging_in :
    run
      (login digest encode settings lower_case lower_case verify 10 11 6
        (3 ∷ [])
        (codes "a@b")
        (codes "p"))
      one_token
    ≡ (ok (auth_response settings user (1 ∷ 10 ∷ 910 ∷ []) (3 ∷ [])), logged_in)
unfolding run login find text_eq check_password issue_tokens create_refresh_token add_token exists
    auth_response
logging_in = refl

not_taken : exists (is_token 8) logged_in.refresh_tokens ≡ false
unfolding run login find text_eq check_password issue_tokens create_refresh_token add_token exists
    auth_response
not_taken = refl

not_stored : exists (has_hash (digest (4 ∷ []))) logged_in.refresh_tokens ≡ false
unfolding run login find text_eq check_password issue_tokens create_refresh_token add_token exists
    auth_response
not_stored = refl

login-refresh_example :
    (r' : RefreshResponse) × (db'' : Db) × (run
        (refresh digest encode settings 20 21 22 23 8
          (4 ∷ [])
          (auth_response settings user (1 ∷ 10 ∷ 910 ∷ []) (3 ∷ [])).refresh_token)
        logged_in
      ≡ (ok r', db''))
    × (r'.refresh_token ≡ 4 ∷ [])
login-refresh_example =
    login-refresh digest encode settings lower_case lower_case verify 10 11 6 (3 ∷ []) (codes "a@b")
      (codes "p") one_token logged_in (auth_response settings user (1 ∷ 10 ∷ 910 ∷ []) (3 ∷ [])) 20
      21 22 23 8 (4 ∷ []) logging_in (omega arith) not_taken not_stored

abbrev new_user : User
new_user = record { id = 2; email = codes "n@b"; password_hash = codes "w"; created_at = 9 }

abbrev registered : Db
registered =
    (run
      (register digest encode settings lower_case lower_case hash 9 10 11 2 6 (3 ∷ []) (codes "s")
        (codes "n@b") (codes "w"))
      one_token).1

registering :
    run
      (register digest encode settings lower_case lower_case hash 9 10 11 2 6
        (3 ∷ [])
        (codes "s")
        (codes "n@b")
        (codes "w"))
      one_token
    ≡ (ok (auth_response settings new_user (2 ∷ 10 ∷ 910 ∷ []) (3 ∷ [])), registered)
unfolding run register add_user find text_eq issue_tokens create_refresh_token add_token exists
    auth_response
registering = refl

not_taken_yet : exists (is_token 8) registered.refresh_tokens ≡ false
unfolding run register add_user find text_eq issue_tokens create_refresh_token add_token exists
    auth_response
not_taken_yet = refl

not_stored_yet : exists (has_hash (digest (4 ∷ []))) registered.refresh_tokens ≡ false
unfolding run register add_user find text_eq issue_tokens create_refresh_token add_token exists
    auth_response
not_stored_yet = refl

verifies : (p s : Text) → verify p (hash p s) ≡ true
verifies p s = text_eq_refl p

lowered : (e : Text) → lower_case (lower_case e) ≡ lower_case e
lowered e = refl

register-login_example :
    (r' : AuthSuccessResponse) × (db'' : Db) × (run
        (login digest encode settings lower_case lower_case verify 20 21 8
          (4 ∷ [])
          (codes "n@b")
          (codes "w"))
        registered
      ≡ (ok r', db''))
    × (r'.user ≡ (auth_response settings new_user (2 ∷ 10 ∷ 910 ∷ []) (3 ∷ [])).user)
    × (r'.refresh_token ≡ 4 ∷ [])
register-login_example =
    register-login digest encode settings lower_case lower_case hash verify 9 10 11 2 6 (3 ∷ [])
      (codes "s") (codes "n@b") (codes "w") one_token registered
      (auth_response settings new_user (2 ∷ 10 ∷ 910 ∷ []) (3 ∷ [])) 20 21 8 (4 ∷ []) verifies
      lowered registering not_taken_yet not_stored_yet

abbrev erased : Db
erased = (run (delete_account verify user (codes "p")) one_share).1

erasure : run (delete_account verify user (codes "p")) one_share ≡ (ok tt, erased)
unfolding run delete_account text_eq
erasure = refl

abbrev decode : Text → Option ℕ
decode [] = none
decode (id ∷ _) = some id

is_bearer : text_eq (lower_case (codes "bearer")) (codes "bearer") ≡ true
is_bearer = text_eq_refl (codes "bearer")

delete_account-Erased_example :
    Erased 1 erased
    × Untouched 4 one_share erased
    × (run (get_current_user lower_case decode (some (codes "bearer", 1 ∷ []))) erased
        ≡ (err (api_error unknown_user), erased))
delete_account-Erased_example =
    delete_account-Erased verify lower_case decode user (codes "p") one_share erased 4
      (codes "bearer") (1 ∷ []) erasure (λ e. omega (arith, e)) is_bearer refl

-- Tokens are their claims, and the text of an id is the id.
abbrev jwt_decode : ℕ → Text → Option Claims
jwt_decode now (sub ∷ iat ∷ exp ∷ []) =
    if leb now exp then some (record { sub = some (sub ∷ []); iat = iat; exp = exp }) else none
jwt_decode now token = none

jwt_decodes :
    (u iat exp t : ℕ)
    → t ≤ exp
    → jwt_decode t (encode u iat exp) ≡ some (record { sub = some (u ∷ []); iat = iat; exp = exp })
jwt_decodes u iat exp t h = ground arith

abbrev uuid : Text → Option ℕ
uuid [] = none
uuid (u ∷ _) = some u

login-get_current_user_example :
    (found : User) × (run
        (get_current_user lower_case (decode_access_token jwt_decode uuid 500) (
          some (
            codes "bearer",
            (auth_response settings user (1 ∷ 10 ∷ 910 ∷ []) (3 ∷ [])).access_token,
          )))
        logged_in
      ≡ (ok found, logged_in))
    × (found.id ≡ (auth_response settings user (1 ∷ 10 ∷ 910 ∷ []) (3 ∷ [])).user.id)
login-get_current_user_example =
    login-get_current_user digest encode settings lower_case lower_case verify 10 11 6 (3 ∷ [])
      (codes "a@b") (codes "p") one_token logged_in
      (auth_response settings user (1 ∷ 10 ∷ 910 ∷ []) (3 ∷ [])) (λ u. u ∷ []) jwt_decode uuid 500
      (codes "bearer") jwt_decodes (λ u. refl) logging_in (omega arith) is_bearer
