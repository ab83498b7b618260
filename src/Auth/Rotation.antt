-- ===== src/Auth/Rotation.antt =====
-- app/auth/tokens.py: refresh tokens after a rotation and after a logout.
use super_secure_notes_api.Prelude.{
  ℕ, ◌≡◌, refl, sym, ap, ◌∙◌, true, false, some, List, ◌∷◌, arith, ltb, ◌==◌, ==_refl, Bool-cases,
  Option-cases, inl, inr,
}
use super_secure_notes_api.Prelude.Result.{Result, ok, err}
use super_secure_notes_api.Prelude.Text.{Text, text_eq, text_eq→eq}
use super_secure_notes_api.Db.Models.{User, RefreshToken, Db}
use super_secure_notes_api.Db.Table.{find, exists}
use super_secure_notes_api.Db.Table.Laws.{find-update_found, find-exists_false}
use super_secure_notes_api.Db.Session.{
  Session, Action, Failure, api_error, run, ◌>>=◌, ◌>>◌, commit, pure,
}
use super_secure_notes_api.Auth.{
  Settings, invalid_refresh_token, has_hash, is_token, is_user, is_unrevoked, add_token,
  check_stored, the_one, logout, revoke_all_refresh_tokens, create_refresh_token,
  rotate_refresh_token, create_access_token,
}

-- A token with another hash does not hide one that is stored.
find-behind :
    (x : RefreshToken) (new old : Text) (rows : List RefreshToken) (y : RefreshToken)
    → x.token_hash ≡ new
    → exists (has_hash new) rows ≡ false
    → find (has_hash old) rows ≡ some y
    → find (has_hash old) (x ∷ rows) ≡ some y
unfolding find
find-behind x new old rows y same free found = elim (Bool-cases (text_eq x.token_hash old)) [
  | inr other ↦ rw other found
  | inl hit ↦
      let e : new ≡ old = sym same ∙ text_eq→eq _ _ hit in
      cc (find-exists_false (has_hash new) rows free, ap (λ k. find (has_hash k) rows) e, found)
]

module _ (sha256 : List ℕ → Text) (encode_jwt : ℕ → ℕ → ℕ → Text) (settings : Settings) where
  -- A token that is stored and revoked is refused, whatever the clock and the new token are.
  revoked_refused :
      (now now₁ now₂ now₃ new_id : ℕ) (new_token raw_token : List ℕ) (db : Db)
      (stored : RefreshToken) (t : ℕ)
      → find (has_hash (sha256 raw_token)) db.refresh_tokens ≡ some stored
      → stored.revoked_at ≡ some t
      → run
          (rotate_refresh_token sha256 encode_jwt settings now now₁ now₂ now₃ new_id new_token
            raw_token)
          db
        ≡ (err (api_error invalid_refresh_token), db)
  unfolding run rotate_refresh_token check_stored
  revoked_refused now now₁ now₂ now₃ new_id new_token raw_token db stored t found revoked =
      rw (found, revoked) refl

  abbrev outcome : {A : Type 0} → Result Failure A × Session → Result Failure A × Db
  outcome x = (x.0, x.1.committed)

  -- The last steps of a rotation.
  abbrev finish : ℕ → ℕ → ℕ → List ℕ → User → Action (Text × (List ℕ × User))
  finish now₂ now₃ new_id new_token user = do
    new_raw ← create_refresh_token sha256 encode_jwt settings now₂ new_id new_token user.id
    let access_token = create_access_token sha256 encode_jwt settings now₃ user.id
    commit
    pure (access_token, (new_raw, user))

  created :
      (now₂ now₃ new_id : ℕ) (new_token : List ℕ) (user : User) (s : Session) (db' : Db)
      (r : Text × (List ℕ × User))
      → outcome (finish now₂ now₃ new_id new_token user s) ≡ (ok r, db')
      → (x : RefreshToken) × (db'.refresh_tokens ≡ x ∷ s.pending.refresh_tokens)
        × (x.token_hash ≡ sha256 new_token)
        × (exists (has_hash (sha256 new_token)) s.pending.refresh_tokens ≡ false)
  unfolding create_refresh_token add_token
  created now₂ now₃ new_id new_token user s db' r =
      elim (Bool-cases (exists (is_token new_id) s.pending.refresh_tokens)) [
        | inl a ↦ rw a (λ h. cc)
        | inr a ↦
            elim (Bool-cases (exists (has_hash (sha256 new_token)) s.pending.refresh_tokens)) [
              | inl b ↦ rw (a, b) (λ h. cc)
              | inr b ↦
                  rw (a, b)
                    (λ h. (
                      _,
                      sym (
                          ap
                            (λ (x : Result Failure (Text × (List ℕ × User)) × Db).
                              x.1.refresh_tokens)
                            h),
                      refl,
                      refl,
                    ))
            ]
      ]

  -- What a rotation that succeeds leaves.
  rotated :
      (now now₁ now₂ now₃ new_id : ℕ) (new_token raw_token : List ℕ) (db db' : Db)
      (r : Text × (List ℕ × User))
      → run
          (rotate_refresh_token sha256 encode_jwt settings now now₁ now₂ now₃ new_id new_token
            raw_token)
          db
        ≡ (ok r, db')
      → (stored : RefreshToken) × (find (has_hash (sha256 raw_token)) db'.refresh_tokens
          ≡ some stored)
        × (stored.revoked_at ≡ some now₁)
  unfolding run rotate_refresh_token check_stored the_one
  rotated now now₁ now₂ now₃ new_id new_token raw_token db db' r =
      elim (Option-cases (find (has_hash (sha256 raw_token)) db.refresh_tokens)) [
        | inl e ↦ rw e (λ h. cc)
        | inr (stored, e) ↦ elim (Option-cases stored.revoked_at) [
          | inr (t, revoked) ↦ rw (e, revoked) (λ h. cc)
          | inl live ↦ elim (Bool-cases (ltb stored.expires_at now)) [
            | inl late ↦ rw (e, live, late) (λ h. cc)
            | inr on_time ↦ elim (Option-cases (find (is_user stored.user_id) db.users)) [
              | inl no_user ↦ rw (e, live, on_time, no_user) (λ h. cc)
              | inr (user, found) ↦
                  rw (e, live, on_time, found)
                    (λ h.
                      let (x, tokens, fresh, free) =
                        created now₂ now₃ new_id new_token user _ db' r h in
                      let again =
                        find-update_found (has_hash (sha256 raw_token)) (is_token stored.id)
                          (λ x. record x { revoked_at = some now₁ }) db.refresh_tokens stored
                          (λ y. refl) e in
                      (
                        record stored { revoked_at = some now₁ },
                        ap (find (has_hash (sha256 raw_token))) tokens
                            ∙ find-behind x _ _ _ _ fresh free
                                (again ∙ rw (==_refl stored.id) refl),
                        refl,
                      ))
            ]
          ]
        ]
      ]

  -- A token that a rotation took is refused by every later one, with no change of the database.
  pub rotate_refresh_token_once :
      (now now₁ now₂ now₃ new_id : ℕ) (new_token raw_token : List ℕ) (db db' : Db)
      (r : Text × (List ℕ × User)) (later later₁ later₂ later₃ other_id : ℕ) (other_token : List ℕ)
      → run
          (rotate_refresh_token sha256 encode_jwt settings now now₁ now₂ now₃ new_id new_token
            raw_token)
          db
        ≡ (ok r, db')
      → run
          (rotate_refresh_token sha256 encode_jwt settings later later₁ later₂ later₃ other_id
            other_token raw_token)
          db'
        ≡ (err (api_error invalid_refresh_token), db')
  rotate_refresh_token_once now now₁ now₂ now₃ new_id new_token raw_token db db' r later later₁
        later₂ later₃ other_id other_token h =
      let (stored, found, revoked) =
        rotated now now₁ now₂ now₃ new_id new_token raw_token db db' r h in
      revoked_refused later later₁ later₂ later₃ other_id other_token raw_token db' stored now₁
        found revoked

  -- After `logout`, every stored refresh token of the user is refused, with no change of the database.
  pub logout_revokes :
      (now user_id later later₁ later₂ later₃ new_id : ℕ) (new_token raw_token : List ℕ) (db : Db)
      (stored : RefreshToken)
      → find (has_hash (sha256 raw_token)) db.refresh_tokens ≡ some stored
      → stored.user_id ≡ user_id
      → run
          (rotate_refresh_token sha256 encode_jwt settings later later₁ later₂ later₃ new_id
            new_token raw_token)
          (run (logout now user_id) db).1
        ≡ (err (api_error invalid_refresh_token), (run (logout now user_id) db).1)
  unfolding run logout revoke_all_refresh_tokens
  logout_revokes now user_id later later₁ later₂ later₃ new_id new_token raw_token db stored found
        owned =
      let again =
        find-update_found (has_hash (sha256 raw_token)) (is_unrevoked user_id)
          (λ x. record x { revoked_at = some now }) db.refresh_tokens stored (λ y. refl) found in
      let mine : (stored.user_id == user_id) ≡ true = ground (arith, owned, ==_refl user_id) in
      elim (Option-cases stored.revoked_at) [
        | inl live ↦
            revoked_refused later later₁ later₂ later₃ new_id new_token raw_token _
              (record stored { revoked_at = some now }) now (again ∙ rw (mine, live) refl) refl
        | inr (t, revoked) ↦
            revoked_refused later later₁ later₂ later₃ new_id new_token raw_token _ stored t
              (again ∙ rw (mine, revoked) refl) revoked
      ]
