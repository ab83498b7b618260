-- ===== src/Parsers/Ssnv/Fields.antt =====
-- app/parsers/ssnv.py: the fields of a header, described with no parser, and what the reads of the
-- identity accept.
use mathlib.Core.List.{append-nil}
use super_secure_notes_api.Prelude.{
  ℕ, ◌≡◌, refl, sym, ap, ◌∙◌, ◌⊎◌, inl, inr, true, false, none, some, ◌||◌, List, [], ◌∷◌, ◌++◌,
  arith, length, ◌==◌, ==→eq,
}
use super_secure_notes_api.Parsers.Buffer.{unpack_be}
use super_secure_notes_api.Parsers.Buffer.Grammar.{Then, Unpacked, LengthPrefixed, join, one_byte}
use super_secure_notes_api.Parsers.Ssnv.{VaultHeaderMetadata, ssnv_magic}

-- The encoded fields of a header, in order. `identity` is what version 2 adds.
pub record HeaderFields : Type 0 where
  pub kdf_id : List ℕ
  pub salt : List ℕ
  pub iterations : List ℕ
  pub wrapped_udk_password : List ℕ
  pub wrapped_udk_recovery : List ℕ
  pub identity : List ℕ

abbrev pub vault_header : ℕ → HeaderFields → List ℕ
vault_header version f =
    ssnv_magic
    ++ (version
        ∷ (f.kdf_id
            ++ (f.salt
                ++ (f.iterations
                    ++ (f.wrapped_udk_password ++ (f.wrapped_udk_recovery ++ f.identity))))))

-- Version 1 has no identity; version 2 has an algorithm byte, a key of 32 bytes and a wrapped key.
abbrev pub Identity : List ℕ → VaultHeaderMetadata → Type 0
Identity enc m =
    ((enc ≡ []) × (m ≡ record { format_version = 1; public_key = none; algorithm_id = none }))
    ⊎ ((algorithm_id : ℕ) × (key : List ℕ) × (private_key : List ℕ) × (enc
          ≡ algorithm_id ∷ (key ++ private_key))
        × (length key ≡ 32)
        × ((raw : List ℕ) × LengthPrefixed private_key raw)
        × (m ≡ record {
          format_version = 2;
          public_key = some key;
          algorithm_id = some algorithm_id;
        }))

pub record Spells (f : HeaderFields) (m : VaultHeaderMetadata) : Type 0 where
  pub kdf_id : length f.kdf_id ≡ 1
  pub salt : length f.salt ≡ 32
  pub iterations : length f.iterations ≡ 4
  pub wrapped_udk_password : (raw : List ℕ) × LengthPrefixed f.wrapped_udk_password raw
  pub wrapped_udk_recovery : (raw : List ℕ) × LengthPrefixed f.wrapped_udk_recovery raw
  pub identity : Identity f.identity m

abbrev pub IsVaultHeader : List ℕ → VaultHeaderMetadata → Type 0
IsVaultHeader blob m = (f : HeaderFields) × (blob ≡ vault_header m.format_version f) × Spells f m

-- What the reads of the identity accept, for a version.
abbrev WithIdentity : ℕ → List ℕ → VaultHeaderMetadata → Type 0
WithIdentity v = Then (Unpacked 1) λ algorithm_id.
    Then (λ e a. (e ≡ a) × (length a ≡ 32))
      λ key. Then LengthPrefixed λ _ e m.
        (e ≡ [])
        × (m ≡ record {
          format_version = v;
          public_key = some key;
          algorithm_id = some algorithm_id;
        })

abbrev NoIdentity : ℕ → List ℕ → VaultHeaderMetadata → Type 0
NoIdentity v enc m =
    (enc ≡ []) × (m ≡ record { format_version = v; public_key = none; algorithm_id = none })

abbrev pub IdentityReads : ℕ → List ℕ → VaultHeaderMetadata → Type 0
IdentityReads v enc m =
    ((v == 2) ≡ true) × WithIdentity v enc m ⊎ ((v == 2) ≡ false) × NoIdentity v enc m

abbrev pub IsSupported : ℕ → Type 0
IsSupported v = (v == 1 || v == 2) ≡ true

pub Identity-fields :
    (v : ℕ) (enc : List ℕ) (m : VaultHeaderMetadata)
    → IsSupported v
    → IdentityReads v enc m
    → (m.format_version ≡ v) × Identity enc m
Identity-fields v enc m known
      (inl (
        two,
        (a, _, _, s0, a_h, (key, _, _, s1, (key_b, len), (raw, p, _, s2, p_h, (done, same)))),
      )) =
    (
      ap (λ (x : VaultHeaderMetadata). x.format_version) same,
      inr (
        a,
        key,
        p,
        join s0 (one_byte a _ a_h) (join s1 key_b (join s2 refl done ∙ append-nil p)),
        len,
        (raw, p_h),
        same
            ∙ ap (λ x. record { format_version = x; public_key = some key; algorithm_id = some a })
                (==→eq v 2 two),
      ),
    )
Identity-fields v enc m known (inr (other, (done, same))) = (
  ap (λ (x : VaultHeaderMetadata). x.format_version) same,
  inl (
    done,
    same
        ∙ ap (λ x. record { format_version = x; public_key = none; algorithm_id = none })
            (ground arith),
  ),
)

pub fields-Identity :
    (enc : List ℕ) (m : VaultHeaderMetadata)
    → Identity enc m
    → IsSupported m.format_version × IdentityReads m.format_version enc m
unfolding unpack_be
fields-Identity enc m (inl (done, same)) =
    let version : m.format_version ≡ 1 = ap (λ (x : VaultHeaderMetadata). x.format_version) same in
    (
      rw version refl,
      inr (
        rw version refl,
        (
          done,
          same
              ∙ ap (λ x. record { format_version = x; public_key = none; algorithm_id = none })
                  (sym version),
        ),
      ),
    )
fields-Identity enc m (inr (a, key, p, split, len, (raw, p_h), same)) =
    let version : m.format_version ≡ 2 = ap (λ (x : VaultHeaderMetadata). x.format_version) same in
    (
      rw version refl,
      inl (
        rw version refl,
        (
          a,
          a ∷ [],
          key ++ p,
          split,
          (refl, omega arith),
          (
            key,
            key,
            p,
            refl,
            (refl, len),
            (
              raw,
              p,
              [],
              sym (append-nil p),
              p_h,
              (
                refl,
                same
                    ∙ ap
                        (λ x. record {
                          format_version = x;
                          public_key = some key;
                          algorithm_id = some a;
                        })
                        (sym version),
              ),
            ),
          ),
        ),
      ),
    )
