-- ===== src/Prelude/Text.antt =====
-- Python's `str` as its list of code points, and the parts of `str` and of the UTF-8 codec that
-- the source uses.
use Prim.Native.Nat.{ℕ, zero, suc, ◌+◌, ◌-◌, ◌*◌}
use Prim.Native.Char.{code}
use Prim.Native.String.{String}
use mathlib.Core.Path.{◌≡◌, refl}
use mathlib.Core.Bool.{Bool, true, false, ◌&&◌, ◌||◌}
use mathlib.Core.Option.{Option, none, some}
use mathlib.Core.List.{List, [], ◌∷◌, reverse}
use native.Mathlib.Omega.{arith}
use super_secure_notes_api.Prelude.Tests.{ltb, leb, ◌==◌, if◌then◌else◌}

abbrev pub Text : Type 0
Text = List ℕ

-- The code points of a literal.
abbrev pub codes : String → Text
codes String.[] = []
codes (String.◌∷◌ c s) = code c ∷ codes s

-- `a == b` on texts and on bytes.
unfoldable pub text_eq : Text → Text → Bool
text_eq [] [] = true
text_eq (x ∷ xs) (y ∷ ys) = (x == y) && text_eq xs ys
text_eq _ _ = false

pub text_eq→eq : (s t : Text) → text_eq s t ≡ true → s ≡ t
unfolding text_eq
text_eq→eq [] [] h = refl
text_eq→eq [] (y ∷ ys) h = ground arith
text_eq→eq (x ∷ xs) [] h = ground arith
text_eq→eq (x ∷ xs) (y ∷ ys) h = ground (arith, text_eq→eq xs ys)

pub text_eq_refl : (s : Text) → text_eq s s ≡ true
unfolding text_eq
text_eq_refl [] = refl
text_eq_refl (x ∷ xs) = ground (arith, text_eq_refl xs)

-- `s.strip('"')`
drop_quotes : Text → Text
drop_quotes [] = []
drop_quotes (c ∷ s) = let rest = drop_quotes s in if c == 34 then rest else c ∷ s

unfoldable pub strip_quotes : Text → Text
unfolding drop_quotes
strip_quotes s = reverse (drop_quotes (reverse (drop_quotes s)))

-- `bytes.decode("utf-8")`, which is strict: no overlong form, no surrogate, nothing above 0x10ffff.
continuation : ℕ → Bool
continuation b = leb 0x80 b && ltb b 0xc0

cons? : ℕ → Option Text → Option Text
cons? c none = none
cons? c (some s) = some (c ∷ s)

-- The first character and the bytes after it.
utf8_four : ℕ → ℕ → ℕ → List ℕ → Option (ℕ × List ℕ)
unfolding continuation
utf8_four a b c [] = none
utf8_four a b c (d ∷ s) =
    if leb 0xf0 a
      && ltb a 0xf5
      && continuation b
      && continuation c
      && continuation d
      && (ltb 0xf0 a || leb 0x90 b)
      && (ltb a 0xf4 || ltb b 0x90)
    then some ((a - 0xf0) * 0x40000 + (b - 0x80) * 0x1000 + (c - 0x80) * 0x40 + (d - 0x80), s)
    else none

utf8_three : ℕ → ℕ → List ℕ → Option (ℕ × List ℕ)
unfolding continuation utf8_four
utf8_three a b [] = none
utf8_three a b (c ∷ s) =
    if leb 0xe0 a
      && ltb a 0xf0
      && continuation b
      && continuation c
      && (ltb 0xe0 a || leb 0xa0 b)
      && (ltb a 0xed || ltb 0xed a || ltb b 0xa0)
    then some ((a - 0xe0) * 0x1000 + (b - 0x80) * 0x40 + (c - 0x80), s)
    else utf8_four a b c s

utf8_two : ℕ → List ℕ → Option (ℕ × List ℕ)
unfolding continuation utf8_three
utf8_two a [] = none
utf8_two a (b ∷ s) =
    if leb 0xc2 a && ltb a 0xe0 && continuation b
    then some ((a - 0xc0) * 0x40 + (b - 0x80), s)
    else utf8_three a b s

utf8_next : ℕ → List ℕ → Option (ℕ × List ℕ)
unfolding utf8_two
utf8_next a s = if ltb a 0x80 then some (a, s) else utf8_two a s

-- The fuel is the number of bytes: each round reads one at least.
decode_utf8_fuel : ℕ → List ℕ → Option Text
unfolding utf8_next cons?
decode_utf8_fuel fuel [] = some []
decode_utf8_fuel zero (a ∷ s) = none
decode_utf8_fuel (suc fuel) (a ∷ s) = elim (utf8_next a s) [
  | none ↦ none
  | some (c, rest) ↦ cons? c (decode_utf8_fuel fuel rest)
]

abbrev measure : List ℕ → ℕ
measure [] = 0
measure (a ∷ s) = suc (measure s)

unfoldable pub decode_utf8 : List ℕ → Option Text
unfolding decode_utf8_fuel
decode_utf8 s = decode_utf8_fuel (measure s) s

decode_utf8_test : decode_utf8 (0x68 ∷ 0xc3 ∷ 0xa9 ∷ 0xe2 ∷ 0x82 ∷ 0xac ∷ []) ≡ some (codes "hé€")
unfolding decode_utf8
decode_utf8_test = refl

decode_utf8_overlong : decode_utf8 (0xc0 ∷ 0x80 ∷ []) ≡ none
unfolding decode_utf8
decode_utf8_overlong = refl
