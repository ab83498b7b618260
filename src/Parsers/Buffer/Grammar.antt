-- ===== src/Parsers/Buffer/Grammar.antt =====
-- app/parsers/buffer.py: which bytes each read accepts, and with which value. `Exact m R` says that
-- the action `m` reads exactly the encodings that the relation `R` pairs with a value.
use mathlib.Core.List.{append_assoc, append-nil}
use super_secure_notes_api.Prelude.{
  ℕ, ◌+◌, ◌-◌, ◌≤◌, ◌≡◌, refl, sym, ap, subst, ◌∙◌, ◌↔◌, ◌⊎◌, inl, inr, Bool, true, false, Option,
  none, some, List, [], ◌∷◌, ◌++◌, arith, ltb, length, take, drop, length-append, length-take,
  length-drop, take-append-drop, take-append, drop-append, drop-drop, nil_of_length, if◌then◌else◌,
}
use super_secure_notes_api.Prelude.Result.{Result, ok, err}
use super_secure_notes_api.Prelude.Text.{Text, text_eq, text_eq→eq, text_eq_refl, decode_utf8}
use super_secure_notes_api.Parsers.Buffer.{
  ByteReader, ParseFailure, Read, ◌>>=◌, remaining, at_end, read_fixed, unpack_be, read_u8,
  read_u32_be, read_u64_be, read_length_prefixed_bytes, read_length_prefixed_string, decoded,
  expect_magic, ParseError, invalid_magic, pure, raise,
}

-- What is left to read.
abbrev pub rest_of : ByteReader → List ℕ
rest_of r = drop r.index r.bytes

abbrev pub Rel : Type 0 → Type 1
Rel A = List ℕ → A → Type 0

pub record Exact {A : Type 0} (m : Read A) (R : Rel A) : Type 0 where
  pub accepts :
      (r : ByteReader) (enc rest : List ℕ) (a : A)
      → rest_of r ≡ enc ++ rest
      → R enc a
      → (r' : ByteReader) × (m r ≡ ok (a, r')) × (rest_of r' ≡ rest)
  pub reads :
      (r r' : ByteReader) (a : A)
      → m r ≡ ok (a, r')
      → (enc : List ℕ) × R enc a × (rest_of r ≡ enc ++ rest_of r')

-- One encoding after another.
abbrev pub Then : {A B : Type 0} → Rel A → (A → Rel B) → Rel B
Then {A} R S enc b = (a : A) × (e : List ℕ) × (f : List ℕ) × (enc ≡ e ++ f) × R e a × S a f b

module _ {A B : Type 0} where
  bind-ok :
      (f : A → Read B) (x : Result ParseFailure (A × ByteReader)) (r' : ByteReader) (b : B)
      → elim x [ ok (a, r₁) ↦ f a r₁ | err e ↦ err e ] ≡ ok (b, r')
      → (a : A) × (r₁ : ByteReader) × (x ≡ ok (a, r₁)) × (f a r₁ ≡ ok (b, r'))
  bind-ok f (ok (a, r₁)) r' b h = (a, r₁, refl, h)
  bind-ok f (err e) r' b h = cc

  pub Exact-bind :
      {m : Read A} {f : A → Read B} {R : Rel A} {S : A → Rel B}
      → Exact m R
      → ((a : A) → Exact (f a) (S a))
      → Exact (m >>= f) (Then R S)
  Exact-bind {m} {f} {R} {S} p q = record {
    accepts = λ r enc rest b e (a, e₁, e₂, split, h₁, h₂).
        let here : rest_of r ≡ e₁ ++ (e₂ ++ rest) =
          e ∙ ap (λ x. x ++ rest) split ∙ append_assoc e₁ e₂ rest in
        let (r₁, m_ok, rest₁) = p.accepts r e₁ (e₂ ++ rest) a here h₁ in
        let (r₂, f_ok, rest₂) = (q a).accepts r₁ e₂ rest b rest₁ h₂ in
        (r₂, rw (m_ok, ◌>>=◌) f_ok, rest₂);
    reads = λ r r' b h.
        let (a, r₁, m_ok, f_ok) = bind-ok f (m r) r' b h in
        let (e₁, h₁, split₁) = p.reads r r₁ a m_ok in
        let (e₂, h₂, split₂) = (q a).reads r₁ r' b f_ok in
        (
          e₁ ++ e₂,
          (a, e₁, e₂, refl, h₁, h₂),
          split₁ ∙ ap (λ x. e₁ ++ x) split₂ ∙ sym (append_assoc e₁ e₂ (rest_of r')),
        );
  }

-- A relation may be replaced by one that says the same.
pub Exact-map :
    {A : Type 0} {m : Read A} {R S : Rel A}
    → Exact m R
    → ((enc : List ℕ) (a : A) → R enc a ↔ S enc a)
    → Exact m S
Exact-map p same = record {
  accepts = λ r enc rest a e h. p.accepts r enc rest a e ((same enc a).1 h);
  reads = λ r r' a h. let (enc, s, split) = p.reads r r' a h in (enc, (same enc a).0 s, split);
}

-- An unsigned big-endian integer in `n` bytes.
abbrev pub Unpacked : ℕ → Rel ℕ
Unpacked n enc a = (length enc ≡ n) × (a ≡ unpack_be 0 enc)

-- Concatenations are compared part by part.
pub join : {enc e e' r r' : List ℕ} → enc ≡ e ++ r → e ≡ e' → r ≡ r' → enc ≡ e' ++ r'
join s p q = s ∙ (λ i. p i ++ q i)

-- The one byte that an `uint8` is read from.
pub one_byte : (v : ℕ) (enc : List ℕ) → Unpacked 1 enc v → enc ≡ v ∷ []
unfolding unpack_be
one_byte v [] h = absurd (omega arith)
one_byte v (b ∷ []) h = ap (λ x. x ∷ []) (omega arith)
one_byte v (b ∷ c ∷ enc) h = absurd (omega arith)

read_fixed_fits :
    (r : ByteReader) (a rest : List ℕ)
    → rest_of r ≡ a ++ rest
    → ltb (remaining r) (length a) ≡ false
unfolding remaining
read_fixed_fits r a rest e =
    ground (arith, length-drop r.index r.bytes, ap length e, length-append a rest)

read_fixed_accepts :
    (r : ByteReader) (a rest : List ℕ)
    → rest_of r ≡ a ++ rest
    → read_fixed (length a) r ≡ ok (a, record r { index = r.index + length a })
unfolding read_fixed
read_fixed_accepts r a rest e = rw (read_fixed_fits r a rest e, e, take-append a rest) refl

read_fixed_rest :
    (r : ByteReader) (a rest : List ℕ)
    → rest_of r ≡ a ++ rest
    → drop (r.index + length a) r.bytes ≡ rest
read_fixed_rest r a rest e =
    sym (drop-drop r.index (length a) r.bytes) ∙ ap (drop (length a)) e ∙ drop-append a rest

read_fixed_reads :
    (n : ℕ) (r r' : ByteReader) (a : List ℕ)
    → read_fixed n r ≡ ok (a, r')
    → (n ≤ length r.bytes - r.index)
      × (a ≡ take n (rest_of r))
      × (r' ≡ record r { index = r.index + n })
unfolding read_fixed remaining
read_fixed_reads n r r' a h = ground arith

-- A read of `count` bytes gives the next `count` bytes.
pub Exact-read_fixed : (n : ℕ) → Exact (read_fixed n) (λ enc a. (enc ≡ a) × (length a ≡ n))
Exact-read_fixed n = record {
  accepts = λ r enc rest a e (same, len).
      let e' : rest_of r ≡ a ++ rest = e ∙ ap (λ x. x ++ rest) same in
      (
        record r { index = r.index + n },
        rw (← len) (read_fixed_accepts r a rest e'),
        rw (← len) (read_fixed_rest r a rest e'),
      );
  reads = λ r r' a h.
      let (fits, value, moved) = read_fixed_reads n r r' a h in
      (
        a,
        (
          refl,
          omega (arith, ap length value, length-take n (rest_of r), length-drop r.index r.bytes),
        ),
        rw (value, moved)
            (sym (take-append-drop n (rest_of r))
              ∙ ap (λ x. take n (rest_of r) ++ x) (drop-drop r.index n r.bytes)),
      );
}

pub Exact-pure : {A : Type 0} (a : A) → Exact (λ r. ok (a, r)) (λ enc b. (enc ≡ []) × (b ≡ a))
Exact-pure a = record {
  accepts = λ r enc rest b e (none_read, same). (r, rw same, e ∙ ap (λ x. x ++ rest) none_read);
  reads = λ r r' b h. ([], (refl, ground arith), ground arith);
}

-- A read of an integer.
pub Exact-unpacked :
    (n : ℕ) → Exact (read_fixed n >>= λ chunk r. ok (unpack_be 0 chunk, r)) (Unpacked n)
Exact-unpacked n =
    Exact-map (Exact-bind (Exact-read_fixed n) (λ chunk. Exact-pure (unpack_be 0 chunk))) (λ enc a.
      (
        (λ (chunk, e, f, split, (same, len), (empty, val)).
            let whole : enc ≡ chunk = split ∙ ap (λ x. e ++ x) empty ∙ append-nil e ∙ same in
            (ap length whole ∙ len, val ∙ ap (unpack_be 0) (sym whole))),
        (λ (len, val). (enc, enc, [], sym (append-nil enc), (refl, len), (refl, val))),
      ))

pub Exact-read_u8 : Exact read_u8 (Unpacked 1)
unfolding read_u8
Exact-read_u8 = Exact-unpacked 1

pub Exact-read_u32_be : Exact read_u32_be (Unpacked 4)
unfolding read_u32_be
Exact-read_u32_be = Exact-unpacked 4

pub Exact-read_u64_be : Exact read_u64_be (Unpacked 8)
unfolding read_u64_be
Exact-read_u64_be = Exact-unpacked 8

-- Four bytes that say how many bytes follow them, and those bytes.
abbrev pub LengthPrefixed : Rel (List ℕ)
LengthPrefixed enc a =
    (len : List ℕ) × (enc ≡ len ++ a) × (length len ≡ 4) × (unpack_be 0 len ≡ length a)

pub Exact-read_length_prefixed_bytes : Exact read_length_prefixed_bytes LengthPrefixed
unfolding read_length_prefixed_bytes
Exact-read_length_prefixed_bytes =
    Exact-map (Exact-bind Exact-read_u32_be Exact-read_fixed) (λ enc a. (
      (λ (n, e, f, split, (four, val), (same, len)).
          (e, split ∙ ap (λ x. e ++ x) same, four, sym val ∙ sym len)),
      (λ (len, split, four, val). (unpack_be 0 len, len, a, split, (four, refl), (refl, sym val))),
    ))

abbrev pub LengthPrefixedString : Rel Text
LengthPrefixedString enc t = (raw : List ℕ) × LengthPrefixed enc raw × (decode_utf8 raw ≡ some t)

Exact-decoded : (o : Option Text) → Exact (decoded o) (λ enc t. (enc ≡ []) × (o ≡ some t))
unfolding decoded
Exact-decoded none = record { accepts = λ r enc rest t e h. cc (h.1); reads = λ r r' t h. cc }
Exact-decoded (some s) = record {
  accepts =
      λ r enc rest t e (none_read, same). (r, ground arith, e ∙ ap (λ x. x ++ rest) none_read);
  reads = λ r r' t h. ([], (refl, ground arith), ground arith);
}

pub Exact-read_length_prefixed_string : Exact read_length_prefixed_string LengthPrefixedString
unfolding read_length_prefixed_string
Exact-read_length_prefixed_string =
    Exact-map (Exact-bind Exact-read_length_prefixed_bytes (λ raw. Exact-decoded (decode_utf8 raw)))
      (λ enc t. (
        (λ (raw, e, f, split, prefixed, (empty, val)). (
          raw,
          subst (λ x. LengthPrefixed x raw) (sym (split ∙ ap (λ x. e ++ x) empty ∙ append-nil e))
              prefixed,
          val,
        )),
        (λ (raw, prefixed, val). (raw, enc, [], sym (append-nil enc), prefixed, (refl, val))),
      ))

pub Exact-check :
    (b : Bool) (e : ParseError)
    → Exact (if b then pure tt else raise e) (λ enc _. (enc ≡ []) × (b ≡ true))
Exact-check true e = record {
  accepts = λ r enc rest t e h. (r, refl, e ∙ ap (λ x. x ++ rest) h.0);
  reads = λ r r' t h. ([], (refl, refl), ground arith);
}
Exact-check false e = record { accepts = λ r enc rest t e h. cc (h.1); reads = λ r r' t h. cc }

pub Exact-expect_magic : (magic : List ℕ) → Exact (expect_magic magic) (λ enc _. enc ≡ magic)
unfolding expect_magic
Exact-expect_magic magic =
    Exact-map
      (Exact-bind (Exact-read_fixed (length magic))
        (λ actual. Exact-check (text_eq actual magic) (invalid_magic magic actual)))
      (λ enc _. (
        (λ (actual, e, f, split, (same, len), (empty, eq)).
            split ∙ ap (λ x. e ++ x) empty ∙ append-nil e ∙ same ∙ text_eq→eq actual magic eq),
        (λ same. (magic, enc, [], sym (append-nil enc), (same, refl), (refl, text_eq_refl magic))),
      ))

pub Exact-if :
    {A : Type 0} (b : Bool) {m n : Read A} {R S : Rel A}
    → Exact m R
    → Exact n S
    → Exact (if b then m else n) (λ enc a. (b ≡ true) × R enc a ⊎ (b ≡ false) × S enc a)
Exact-if true p q =
    Exact-map p (λ enc a. ((λ h. inl (refl, h)), elim [ inl h ↦ h.1 | inr h ↦ cc (h.0) ]))
Exact-if false p q =
    Exact-map q (λ enc a. ((λ h. inr (refl, h)), elim [ inl h ↦ cc (h.0) | inr h ↦ h.1 ]))

-- At the end nothing is left.
pub at_end_iff : (r : ByteReader) → (at_end r ≡ true) ↔ (rest_of r ≡ [])
unfolding at_end
at_end_iff r = (
  (λ h. nil_of_length (rest_of r) (ground (arith, length-drop r.index r.bytes))),
  (λ h. ground (arith, ap length h, length-drop r.index r.bytes)),
)
