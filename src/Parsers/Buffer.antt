-- ===== src/Parsers/Buffer.antt =====
-- app/parsers/buffer.py: `ParseError` and `ByteReader`. A method returns the value read and the
-- reader with its new index, or raises.
pub mod Grammar
use super_secure_notes_api.Prelude.{
  ℕ, ◌+◌, ◌-◌, ◌*◌, Bool, Option, none, some, List, [], ◌∷◌, ltb, leb, length, take, drop,
  if◌then◌else◌,
}
use super_secure_notes_api.Prelude.Result.{Result, ok, err}
use super_secure_notes_api.Prelude.Text.{Text, text_eq, decode_utf8}

-- The messages of the `ParseError`s that the parsers raise, with the values printed in them.
pub data ParseError : Type 0 where
  insufficient_data : ParseError
  invalid_magic : List ℕ → List ℕ → ParseError
  empty_blob trailing_bytes missing_identity : ParseError
  unsupported_version : ℕ → ParseError

-- What a parser raises. A `UnicodeDecodeError` is a `ValueError`, and no `ParseError`.
pub data ParseFailure : Type 0 where
  parse_error : ParseError → ParseFailure
  unicode_decode_error : ParseFailure

pub record ByteReader : Type 0 where
  pub bytes : List ℕ
  pub index : ℕ

unfoldable pub byte_reader : List ℕ → ByteReader
byte_reader bytes = record { bytes = bytes; index = 0 }

abbrev pub Read : Type 0 → Type 0
Read A = ByteReader → Result ParseFailure (A × ByteReader)

infixl 5 ◌>>=◌ ◌>>◌
abbrev pub ◌>>=◌ : {A B : Type 0} → Read A → (A → Read B) → Read B
◌>>=◌ m f r = elim (m r) [ ok (a, r') ↦ f a r' | err e ↦ err e ]

abbrev pub ◌>>◌ : {A B : Type 0} → Read A → Read B → Read B
m >> k = m >>= λ _. k

abbrev pub pure : {A : Type 0} → A → Read A
pure a r = ok (a, r)

abbrev pub raise : {A : Type 0} → ParseError → Read A
raise e r = err (parse_error e)

pub remaining : ByteReader → ℕ
remaining r = length r.bytes - r.index

unfoldable pub at_end : ByteReader → Bool
at_end r = leb (length r.bytes) r.index

unfoldable pub read_fixed : ℕ → Read (List ℕ)
unfolding remaining
read_fixed count r =
    if ltb (remaining r) count
    then err (parse_error insufficient_data)
    else ok (take count (drop r.index r.bytes), record r { index = r.index + count })

-- `struct.unpack` of an unsigned big-endian integer, as wide as the bytes are.
unfoldable pub unpack_be : ℕ → List ℕ → ℕ
unpack_be acc [] = acc
unpack_be acc (b ∷ bs) = unpack_be (acc * 256 + b) bs

unfoldable pub read_u8 : Read ℕ
unfolding unpack_be
read_u8 = do chunk ← read_fixed 1; pure (unpack_be 0 chunk)

unfoldable pub read_u32_be : Read ℕ
read_u32_be = do chunk ← read_fixed 4; pure (unpack_be 0 chunk)

unfoldable pub read_u64_be : Read ℕ
read_u64_be = do chunk ← read_fixed 8; pure (unpack_be 0 chunk)

unfoldable pub read_length_prefixed_bytes : Read (List ℕ)
read_length_prefixed_bytes = do len ← read_u32_be; read_fixed len

decoded : Option Text → Read Text
decoded none r = err unicode_decode_error
decoded (some t) r = ok (t, r)

unfoldable pub read_length_prefixed_string : Read Text
unfolding decoded
read_length_prefixed_string = do raw ← read_length_prefixed_bytes; decoded (decode_utf8 raw)

unfoldable pub expect_magic : List ℕ → Read (Unit {0})
expect_magic expected = do
  actual ← read_fixed (length expected)
  if text_eq actual expected then pure tt else raise (invalid_magic expected actual)
