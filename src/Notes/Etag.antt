-- ===== src/Notes/Etag.antt =====
-- app/notes/service.py: the etags. `hashlib.sha256(…).hexdigest()` is the parameter `sha256`, a
-- function from bytes to text. What is hashed for the composite etag is ASCII: its bytes are its code
-- points.
pub mod Order
use super_secure_notes_api.Prelude.{
  ℕ, zero, suc, ◌+◌, ◌/◌, ◌%◌, ◌^◌, ◌≡◌, refl, Bool, true, false, List, [], ◌∷◌, ◌++◌, map, ltb,
  ◌==◌, if◌then◌else◌,
}
use super_secure_notes_api.Prelude.Text.{Text, codes}

-- The last `n` hexadecimal digits of a number.
hex_digits : ℕ → ℕ → Text
hex_digits zero v = []
hex_digits (suc n) v =
    let d = v % 16 in hex_digits n (v / 16) ++ (if ltb d 10 then 48 + d else 87 + d) ∷ []

-- `str(uuid)`
unfoldable pub uuid_str : ℕ → Text
unfolding hex_digits
uuid_str id =
    hex_digits 8 (id / 16 ^ 24)
    ++ (45 ∷ hex_digits 4 (id / 16 ^ 20))
    ++ (45 ∷ hex_digits 4 (id / 16 ^ 16))
    ++ (45 ∷ hex_digits 4 (id / 16 ^ 12))
    ++ (45 ∷ hex_digits 12 id)

-- `s <= t` on texts.
unfoldable pub text_le : Text → Text → Bool
text_le [] t = true
text_le (x ∷ s) [] = false
text_le (x ∷ s) (y ∷ t) =
    let rest = text_le s t in if ltb x y then true else if x == y then rest else false

insert_text : Text → List Text → List Text
insert_text s [] = s ∷ []
insert_text s (t ∷ ts) = let rest = insert_text s ts in if text_le s t then s ∷ t ∷ ts else t ∷ rest

-- `sorted(parts)`
unfoldable pub sorted : List Text → List Text
unfolding insert_text
sorted [] = []
sorted (s ∷ ss) = insert_text s (sorted ss)

-- `",".join(parts)`
unfoldable pub join_commas : List Text → Text
join_commas [] = []
join_commas (s ∷ []) = s
join_commas (s ∷ t ∷ ss) = s ++ (44 ∷ join_commas (t ∷ ss))

-- `f"{attachment_id}:{etag}"`
unfoldable pub part : ℕ × Text → Text
unfolding uuid_str
part (attachment_id, etag) = uuid_str attachment_id ++ (58 ∷ etag)

module _ (sha256 : List ℕ → Text) where
  unfoldable pub compute_etag : List ℕ → Text
  compute_etag content = sha256 content

  unfoldable pub compute_composite_etag : Text → List (ℕ × Text) → Text
  unfolding sorted join_commas part
  compute_composite_etag body_etag attachments =
      let parts = sorted (map part attachments) in sha256 (body_etag ++ (124 ∷ join_commas parts))

uuid_str_test :
    uuid_str 0x550e8400e29b41d4a716446655440000 ≡ codes "550e8400-e29b-41d4-a716-446655440000"
unfolding uuid_str
uuid_str_test = refl
