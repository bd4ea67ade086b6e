-- ===== src/Common/Word.antt =====
-- Fixed-width words and their little-endian bytes (package encoding/binary).
use Prim.Native.Nat.{ℕ, zero, suc, ◌+◌, ◌*◌, ◌/◌, ◌%◌, ◌^◌, ◌<◌}
use mathlib.Core.Path.{◌≡◌, refl, ap}
use mathlib.Core.List.{List, [], ◌∷◌}
use native.Mathlib.Nat.{pow-suc}
use native.Mathlib.Omega.{arith}
use goster_io_t.Common.Lists.{length, take, drop, All}

abbrev pub u8 : ℕ → ℕ
u8 n = n % 2 ^ 8

abbrev pub u16 : ℕ → ℕ
u16 n = n % 2 ^ 16

abbrev pub u32 : ℕ → ℕ
u32 n = n % 2 ^ 32

abbrev pub u64 : ℕ → ℕ
u64 n = n % 2 ^ 64

abbrev pub Bytes : Type 0
Bytes = List ℕ

abbrev pub IsByte : ℕ → Type 0
IsByte b = b < 256

-- binary.LittleEndian.PutUint16, PutUint32 and PutUint64, by the number of bytes.
unfoldable pub put_le : ℕ → ℕ → Bytes
put_le zero v = []
put_le (suc k) v = (v % 256) ∷ put_le k (v / 256)

-- binary.LittleEndian.Uint16, Uint32 and Uint64.
unfoldable pub get_le : Bytes → ℕ
get_le [] = 0
get_le (b ∷ bs) = b + 256 * get_le bs

-- buf[off : off+n]
abbrev pub slice : ℕ → ℕ → Bytes → Bytes
slice off n buf = take n (drop off buf)

-- copy(buf[off:], bs)
unfoldable pub write_at : ℕ → Bytes → Bytes → Bytes
write_at zero bs [] = []
write_at zero [] (x ∷ buf) = x ∷ buf
write_at zero (b ∷ bs) (x ∷ buf) = b ∷ write_at zero bs buf
write_at (suc off) bs [] = []
write_at (suc off) bs (x ∷ buf) = x ∷ write_at off bs buf

pub length-put_le : (k v : ℕ) → length (put_le k v) ≡ k
unfolding put_le
length-put_le zero v = refl
length-put_le (suc k) v = ap suc (length-put_le k (v / 256))

pub put_le-IsByte : (k v : ℕ) → All IsByte (put_le k v)
unfolding put_le
put_le-IsByte zero v = tt
put_le-IsByte (suc k) v = (omega arith, put_le-IsByte k (v / 256))

-- Reading back what was written, for a value that fits the width.
pub get_le-put_le : (k v : ℕ) → v < 256 ^ k → get_le (put_le k v) ≡ v
unfolding get_le put_le
get_le-put_le zero v h = omega arith
get_le-put_le (suc k) v h =
    let fits : v / 256 < 256 ^ k = omega (arith, pow-suc 256 k) in
    omega (arith, get_le-put_le k (v / 256) fits)
