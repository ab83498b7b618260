-- ===== src/Parsers/Ssnv/Format.antt =====
-- app/parsers/ssnv.py: the headers that `parse_vault_header` accepts, described with no parser.
use mathlib.Core.List.{append-nil}
use super_secure_notes_api.Prelude.{
  ℕ, ◌≡◌, refl, sym, ap, subst, ◌∙◌, ◌↔◌, inl, inr, true, none, some, ◌||◌, List, [], ◌∷◌, arith,
  length, ◌==◌,
}
use super_secure_notes_api.Prelude.Result.{Result, ok, err}
use super_secure_notes_api.Parsers.Buffer.{
  ByteReader, ParseFailure, byte_reader, at_end, unpack_be, unsupported_version,
}
use super_secure_notes_api.Parsers.Buffer.Grammar.{
  Exact, Then, Unpacked, LengthPrefixed, Exact-bind, Exact-map, Exact-if, Exact-read_u8, Exact-pure,
  Exact-check, Exact-read_fixed, Exact-read_u32_be, Exact-read_length_prefixed_bytes,
  Exact-expect_magic, at_end_iff, join, one_byte,
}
use super_secure_notes_api.Parsers.Ssnv.{
  VaultHeaderMetadata, read_identity, ssnv_magic, read_header, whole_header, parse_vault_header,
}
use super_secure_notes_api.Parsers.Ssnv.Fields.{
  Identity, IsVaultHeader, IdentityReads, IsSupported, Identity-fields, fields-Identity,
}

Exact-identity : (v : ℕ) → Exact (read_identity v) (IdentityReads v)
unfolding read_identity
Exact-identity v =
    Exact-if (v == 2)
      (Exact-bind Exact-read_u8 λ algorithm_id. Exact-bind (Exact-read_fixed 32) λ key.
        Exact-bind Exact-read_length_prefixed_bytes λ _.
          Exact-pure (record {
            format_version = v;
            public_key = some key;
            algorithm_id = some algorithm_id;
          }))
      (Exact-pure (record { format_version = v; public_key = none; algorithm_id = none }))

abbrev HeaderReads : List ℕ → VaultHeaderMetadata → Type 0
HeaderReads =
    Then {A = Unit {0}} (λ enc _. enc ≡ ssnv_magic)
      λ _. Then (Unpacked 1) λ version.
        Then {A = Unit {0}} (λ enc _. (enc ≡ []) × IsSupported version)
          λ _. Then (Unpacked 1) λ _.
            Then (λ e a. (e ≡ a) × (length a ≡ 32))
              λ _.
                Then (Unpacked 4)
                  λ _. Then LengthPrefixed λ _. Then LengthPrefixed λ _. IdentityReads version

header_fields : (enc : List ℕ) (m : VaultHeaderMetadata) → HeaderReads enc m → IsVaultHeader enc m
header_fields enc m
      (
        _,
        _,
        _,
        s0,
        magic,
        (
          v,
          v_b,
          _,
          s1,
          v_h,
          (
            _,
            _,
            _,
            s2,
            (none_read, known),
            (
              _,
              kdf,
              _,
              s3,
              kdf_h,
              (
                salt,
                salt_b,
                _,
                s4,
                salt_h,
                (
                  _,
                  iter,
                  _,
                  s5,
                  iter_h,
                  (pw_raw, pw, _, s6, pw_h, (rec_raw, rec, identity, s7, rec_h, reads)),
                ),
              ),
            ),
          ),
        ),
      ) =
    let (version, is) = Identity-fields v identity m known reads in
    (
      record {
        kdf_id = kdf;
        salt = salt_b;
        iterations = iter;
        wrapped_udk_password = pw;
        wrapped_udk_recovery = rec;
        identity = identity;
      },
      join s0 magic (
          join s1 (one_byte v v_b v_h ∙ ap (λ x. x ∷ []) (sym version))
            (join s2 none_read (join s3 refl (join s4 refl (join s5 refl (join s6 refl s7)))))),
      record {
        kdf_id = kdf_h.0;
        salt = ap length salt_h.0 ∙ salt_h.1;
        iterations = iter_h.0;
        wrapped_udk_password = (pw_raw, pw_h);
        wrapped_udk_recovery = (rec_raw, rec_h);
        identity = is;
      },
    )

fields_header : (enc : List ℕ) (m : VaultHeaderMetadata) → IsVaultHeader enc m → HeaderReads enc m
unfolding unpack_be
fields_header enc m (f, e, s) =
    let (known, reads) = fields-Identity f.identity m s.identity in
    (
      tt,
      ssnv_magic,
      _,
      e,
      refl,
      (
        m.format_version,
        m.format_version ∷ [],
        _,
        refl,
        (refl, omega arith),
        (
          tt,
          [],
          _,
          refl,
          (refl, known),
          (
            unpack_be 0 f.kdf_id,
            f.kdf_id,
            _,
            refl,
            (s.kdf_id, refl),
            (
              f.salt,
              f.salt,
              _,
              refl,
              (refl, s.salt),
              (
                unpack_be 0 f.iterations,
                f.iterations,
                _,
                refl,
                (s.iterations, refl),
                (
                  s.wrapped_udk_password.0,
                  f.wrapped_udk_password,
                  _,
                  refl,
                  s.wrapped_udk_password.1,
                  (
                    s.wrapped_udk_recovery.0, f.wrapped_udk_recovery, _, refl,
                    s.wrapped_udk_recovery.1, reads,
                  ),
                ),
              ),
            ),
          ),
        ),
      ),
    )

Exact-read_header : Exact read_header IsVaultHeader
unfolding read_header
Exact-read_header =
    Exact-map
      (Exact-bind (Exact-expect_magic ssnv_magic) λ _. Exact-bind Exact-read_u8 λ version.
        Exact-bind (Exact-check (version == 1 || version == 2) (unsupported_version version)) λ _.
          Exact-bind Exact-read_u8 λ _. Exact-bind (Exact-read_fixed 32) λ _.
            Exact-bind Exact-read_u32_be λ _.
              Exact-bind Exact-read_length_prefixed_bytes
                λ _. Exact-bind Exact-read_length_prefixed_bytes λ _. Exact-identity version)
      (λ enc m. (header_fields enc m, fields_header enc m))

-- The last test of the parser never fails: version 2 has both identity fields.
whole_header-ok :
    (x : Result ParseFailure (VaultHeaderMetadata × ByteReader)) (m : VaultHeaderMetadata)
    → whole_header x ≡ ok m
    → (r : ByteReader) × (x ≡ ok (m, r)) × (at_end r ≡ true)
unfolding whole_header
whole_header-ok (ok (n, r)) m h = (r, ground arith, ground arith)
whole_header-ok (err e) m h = cc

complete_header :
    (enc : List ℕ) (m : VaultHeaderMetadata) (r : ByteReader)
    → Identity enc m
    → at_end r ≡ true
    → whole_header (ok (m, r)) ≡ ok m
unfolding whole_header
complete_header enc m r (inl (_, same)) h = ground arith
complete_header enc m r (inr (_, _, _, _, _, _, same)) h = ground arith

-- `parse_vault_header` succeeds on exactly the headers of version 1 with no identity and of version
-- 2 with an algorithm, a public key of 32 bytes and a wrapped private key, with nothing after them,
-- and returns those parts.
pub parse_vault_header_iff :
    (blob : List ℕ) (m : VaultHeaderMetadata)
    → (parse_vault_header blob ≡ ok m) ↔ IsVaultHeader blob m
unfolding parse_vault_header
parse_vault_header_iff [] m = ((λ h. cc), (λ (f, e, s). cc))
parse_vault_header_iff (b ∷ bytes) m = (
  (λ h.
      let (r, read, ended) = whole_header-ok (read_header (byte_reader (b ∷ bytes))) m h in
      let (enc, is, split) = Exact-read_header.reads (byte_reader (b ∷ bytes)) r m read in
      subst (λ x. IsVaultHeader x m)
        (sym (join split refl ((at_end_iff r).0 ended) ∙ append-nil enc)) is),
  (λ is.
      let (r, read, left) =
        Exact-read_header.accepts (byte_reader (b ∷ bytes)) (b ∷ bytes) [] m
          (sym (append-nil (b ∷ bytes))) is in
      rw read (complete_header is.0.identity m r is.2.identity ((at_end_iff r).1 left))),
)
