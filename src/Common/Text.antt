-- ===== src/Common/Text.antt =====
-- Go strings as their bytes, and the functions of package strings that the program calls.
pub mod Trim
use Prim.Native.Nat.{ℕ, zero, suc, ◌+◌, ◌-◌, ◌<◌}
use Prim.Native.Char.{code}
use Prim.Native.String.{String}
use mathlib.Core.Path.{◌≡◌, refl}
use mathlib.Core.Logic.{◌↔◌}
use mathlib.Core.Bool.{Bool, true, false, ◌&&◌, ◌||◌}
use mathlib.Core.List.{List, [], ◌∷◌, reverse, map}
use native.Mathlib.Omega.{arith}
use goster_io_t.Common.Tests.{leb, ltb, ◌==◌, if◌then◌else◌}

abbrev pub Text : Type 0
Text = List ℕ

-- The bytes of a string literal; every literal that the model writes is ASCII.
unfoldable pub text : String → Text
text String.[] = []
text (String.◌∷◌ c s) = code c ∷ text s

-- `a == b` on strings.
unfoldable pub str_eq : Text → Text → Bool
str_eq [] [] = true
str_eq [] (b ∷ bs) = false
str_eq (a ∷ r) [] = false
str_eq (a ∷ r) (b ∷ bs) = a == b && str_eq r bs

pub str_eq_iff : (a b : Text) → (str_eq a b ≡ true) ↔ (a ≡ b)
unfolding str_eq
str_eq_iff [] [] = ground arith
str_eq_iff [] (b ∷ bs) = ground arith
str_eq_iff (a ∷ r) [] = ground arith
str_eq_iff (a ∷ r) (b ∷ bs) = ground (arith, str_eq_iff r bs)

-- The white space of `unicode.IsSpace`: one byte for ASCII.
ascii_space : ℕ → Bool
ascii_space c = (leb 9 c && leb c 13) || c == 32

-- U+0085 and U+00A0.
space_two : ℕ → ℕ → Bool
space_two a b = a == 0xc2 && (b == 0x85 || b == 0xa0)

-- U+1680, U+2000 to U+200A, U+2028, U+2029, U+202F, U+205F and U+3000.
space_three : ℕ → ℕ → ℕ → Bool
space_three a b c =
    (a == 0xe1 && b == 0x9a && c == 0x80)
    || (a == 0xe2
        && b == 0x80
        && ((leb 0x80 c && leb c 0x8a) || c == 0xa8 || c == 0xa9 || c == 0xaf))
    || (a == 0xe2 && b == 0x81 && c == 0x9f)
    || (a == 0xe3 && b == 0x80 && c == 0x80)

-- The bytes that the white space at the front takes, 0 for none.
unfoldable pub space_front : Text → ℕ
unfolding ascii_space space_two space_three
space_front [] = 0
space_front (a ∷ []) = if ascii_space a then 1 else 0
space_front (a ∷ b ∷ []) = if ascii_space a then 1 else if space_two a b then 2 else 0
space_front (a ∷ b ∷ c ∷ s) =
    if ascii_space a then 1 else if space_two a b then 2 else if space_three a b c then 3 else 0

-- The same at the end of a text, which is given backwards.
unfoldable pub space_back : Text → ℕ
unfolding ascii_space space_two space_three
space_back [] = 0
space_back (a ∷ []) = if ascii_space a then 1 else 0
space_back (b ∷ a ∷ []) = if ascii_space b then 1 else if space_two a b then 2 else 0
space_back (c ∷ b ∷ a ∷ s) =
    if ascii_space c then 1 else if space_two b c then 2 else if space_three a b c then 3 else 0

-- Drops spaces from the front; the number counts bytes of the last space that are still to drop.
unfoldable pub strip : (Text → ℕ) → ℕ → Text → Text
strip width n [] = []
strip width zero (c ∷ s) = elim (width (c ∷ s)) [ zero ↦ c ∷ s | suc k ↦ strip width k s ]
strip width (suc n) (c ∷ s) = strip width n s

-- strings.TrimSpace
unfoldable pub trim_space : Text → Text
unfolding strip space_front space_back
trim_space s = reverse (strip space_back 0 (reverse (strip space_front 0 s)))

lower_byte : ℕ → ℕ
lower_byte c = if leb 65 c && leb c 90 then c + 32 else c

-- strings.ToLower on ASCII letters; other letters are left as they are.
unfoldable pub to_lower : Text → Text
unfolding lower_byte
to_lower = map lower_byte

-- strings.EqualFold on ASCII letters.
unfoldable pub equal_fold : Text → Text → Bool
equal_fold a b = str_eq (to_lower a) (to_lower b)
