-- ===== src/Common/Bytes.antt =====
-- Byte strings as lists of numbers below 256, and the little-endian integers of `struct`.
use Prim.Native.Nat.{ℕ, zero, suc, ◌+◌, ◌*◌, ◌/◌, ◌%◌, ◌^◌, ◌<◌}
use mathlib.Core.Path.{◌≡◌, refl, ap}
use mathlib.Core.Bool.{Bool, true, false, ◌&&◌}
use mathlib.Core.List.{List, [], ◌∷◌}
use native.Mathlib.Nat.{pow-suc}
use native.Mathlib.Omega.{arith}
use esp_iris.Common.Tests.{◌==◌}
use esp_iris.Common.Lists.{length, take, drop, All}

abbrev pub IsByte : ℕ → Type 0
IsByte b = b < 256

-- `struct.pack` of an unsigned integer of `k` bytes, and `struct.unpack` of such bytes.
abbrev pub to_le : ℕ → ℕ → List ℕ
to_le zero n = []
to_le (suc k) n = (n % 256) ∷ to_le k (n / 256)

abbrev pub from_le : List ℕ → ℕ
from_le [] = 0
from_le (b ∷ bs) = b + 256 * from_le bs

-- `struct.unpack_from` of `k` bytes at `offset`.
abbrev pub uint_at : ℕ → ℕ → List ℕ → ℕ
uint_at k offset bytes = from_le (take k (drop offset bytes))

pub to_le-IsByte : (k n : ℕ) → All IsByte (to_le k n)
to_le-IsByte zero n = tt
to_le-IsByte (suc k) n = (omega arith, to_le-IsByte k (n / 256))

pub length-to_le : (k n : ℕ) → length (to_le k n) ≡ k
length-to_le zero n = refl
length-to_le (suc k) n = ap suc (length-to_le k (n / 256))

pub from_le-to_le_u16 : (n : ℕ) → n < 2 ^ 16 → from_le (to_le 2 n) ≡ n
from_le-to_le_u16 n h = omega arith

pub from_le-to_le_u32 : (n : ℕ) → n < 2 ^ 32 → from_le (to_le 4 n) ≡ n
from_le-to_le_u32 n h = omega arith

pub from_le-to_le_u64 : (n : ℕ) → n < 2 ^ 64 → from_le (to_le 8 n) ≡ n
from_le-to_le_u64 n h = omega arith

-- `==` of two byte strings.
abbrev pub bytes_eq : List ℕ → List ℕ → Bool
bytes_eq [] [] = true
bytes_eq (x ∷ xs) (y ∷ ys) = (x == y) && bytes_eq xs ys
bytes_eq _ _ = false

pub bytes_eq_sound : (xs ys : List ℕ) → bytes_eq xs ys ≡ true → xs ≡ ys
bytes_eq_sound [] [] h = refl
bytes_eq_sound (x ∷ xs) (y ∷ ys) h = ground (arith, bytes_eq_sound xs ys)
bytes_eq_sound [] (y ∷ ys) h = cc
bytes_eq_sound (x ∷ xs) [] h = cc

pub bytes_eq_refl : (xs : List ℕ) → bytes_eq xs xs ≡ true
bytes_eq_refl [] = refl
bytes_eq_refl (x ∷ xs) = ground (arith, bytes_eq_refl xs)

-- Bytes are the digits of the number that they stand for.
pub to_le-from_le :
    (bytes : List ℕ) → All IsByte bytes → to_le (length bytes) (from_le bytes) ≡ bytes
to_le-from_le [] h = refl
to_le-from_le (b ∷ bytes) (hb, h) =
    let low : (b + 256 * from_le bytes) % 256 ≡ b = omega arith in
    let high : (b + 256 * from_le bytes) / 256 ≡ from_le bytes = omega arith in
    rw (low, high) (ap (◌∷◌ b) (to_le-from_le bytes h))

pub from_le-lt : (bytes : List ℕ) → All IsByte bytes → from_le bytes < 256 ^ length bytes
from_le-lt [] h = omega arith
from_le-lt (b ∷ bytes) (hb, h) = rw pow-suc (omega (arith, from_le-lt bytes h))
