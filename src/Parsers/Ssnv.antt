-- ===== src/Parsers/Ssnv.antt =====
-- app/parsers/ssnv.py: the vault header formats SSNV v1 and v2.
pub mod Fields
pub mod Format
use super_secure_notes_api.Prelude.{
  ℕ, Bool, true, false, ◌&&◌, ◌||◌, Option, none, some, List, [], ◌∷◌, ◌==◌, if◌then◌else◌,
}
use super_secure_notes_api.Prelude.Result.{Result, ok, err}
use super_secure_notes_api.Prelude.Text.{codes}
use super_secure_notes_api.Parsers.Buffer.{
  ByteReader, ParseFailure, Read, ◌>>=◌, ◌>>◌, pure, raise, parse_error, empty_blob, trailing_bytes,
  unsupported_version, missing_identity, byte_reader, at_end, read_fixed, read_u8, read_u32_be,
  read_length_prefixed_bytes, expect_magic,
}

abbrev pub ssnv_magic : List ℕ
ssnv_magic = codes "SSNV"

abbrev pub salt_length : ℕ
salt_length = 32

abbrev pub identity_public_key_length : ℕ
identity_public_key_length = 32

pub record VaultHeaderMetadata : Type 0 where
  pub format_version : ℕ
  pub public_key : Option (List ℕ)
  pub algorithm_id : Option ℕ

abbrev check_version : ℕ → Read (Unit {0})
check_version version =
    if version == 1 || version == 2 then pure tt else raise (unsupported_version version)

-- `if version == 2:` and the reads under it.
read_identity : ℕ → Read VaultHeaderMetadata
read_identity version =
    if version == 2
    then (do
      algorithm_id ← read_u8
      public_key ← read_fixed identity_public_key_length
      _ ← read_length_prefixed_bytes
      pure (record {
        format_version = version;
        public_key = some public_key;
        algorithm_id = some algorithm_id;
      }))
    else pure (record { format_version = version; public_key = none; algorithm_id = none })

-- The reads of `parse_vault_header`, in order.
read_header : Read VaultHeaderMetadata
unfolding read_identity
read_header = do
  expect_magic ssnv_magic
  version ← read_u8
  check_version version
  _ ← read_u8
  _ ← read_fixed salt_length
  _ ← read_u32_be
  _ ← read_length_prefixed_bytes
  _ ← read_length_prefixed_bytes
  read_identity version

is_none : {A : Type 0} → Option A → Bool
is_none none = true
is_none (some a) = false

-- The two tests after the reads.
whole_header :
    Result ParseFailure (VaultHeaderMetadata × ByteReader) → Result ParseFailure VaultHeaderMetadata
unfolding is_none
whole_header (ok (m, reader)) =
    if at_end reader
    then if m.format_version == 2 && (is_none m.public_key || is_none m.algorithm_id)
      then err (parse_error missing_identity)
      else ok m
    else err (parse_error trailing_bytes)
whole_header (err e) = err e

unfoldable pub parse_vault_header : List ℕ → Result ParseFailure VaultHeaderMetadata
unfolding read_header whole_header byte_reader
parse_vault_header [] = err (parse_error empty_blob)
parse_vault_header (b ∷ bytes) = whole_header (read_header (byte_reader (b ∷ bytes)))
