-- ===== src/Base/Buffer.antt =====
-- Node's `Buffer` writers for 64-bit numbers: little endian, a RangeError out of range.
use sur_protocol_solana.Base.Tests.{ltb, if◌then◌else◌, Outcome, returned, thrown}
use sur_protocol_solana.Base.Lists.{Bytes, length}
use sur_protocol_solana.Base.Int.{ℤ, pos, negsuc}
use Prim.Native.Nat.{ℕ, zero, suc, ◌-◌, ◌/◌, ◌%◌, ◌^◌, ◌<◌}
use mathlib.Core.Path.{◌≡◌, refl, ap}
use mathlib.Core.List.{[], ◌∷◌}
use native.Mathlib.Omega.{arith}

-- The `k` low bytes of a number, lowest first.
unfoldable pub le_bytes : ℕ → ℕ → Bytes
le_bytes zero n = []
le_bytes (suc k) n = n % 256 ∷ le_bytes k (n / 256)

-- `buf.writeBigUInt64LE(n)`
unfoldable pub write_big_uint64_le : ℤ → Outcome Bytes
write_big_uint64_le (pos n) =
    if ltb n (2 ^ 64) then returned (le_bytes 8 n) else thrown "ERR_OUT_OF_RANGE"
write_big_uint64_le (negsuc n) = thrown "ERR_OUT_OF_RANGE"

-- `buf.writeBigInt64LE(n)`: two's complement.
unfoldable pub write_big_int64_le : ℤ → Outcome Bytes
write_big_int64_le (pos n) =
    if ltb n (2 ^ 63) then returned (le_bytes 8 n) else thrown "ERR_OUT_OF_RANGE"
write_big_int64_le (negsuc n) =
    if ltb n (2 ^ 63) then returned (le_bytes 8 (2 ^ 64 - 1 - n)) else thrown "ERR_OUT_OF_RANGE"

pub length-le_bytes : (k n : ℕ) → length (le_bytes k n) ≡ k
unfolding le_bytes
length-le_bytes zero n = refl
length-le_bytes (suc k) n = ap suc (length-le_bytes k (n / 256))

pub le_bytes_injective :
    (k a b : ℕ) → a < 256 ^ k → b < 256 ^ k → le_bytes k a ≡ le_bytes k b → a ≡ b
unfolding le_bytes
le_bytes_injective zero a b ha hb e = omega arith
le_bytes_injective (suc k) a b ha hb e =
    ground (arith, le_bytes_injective k (a / 256) (b / 256) (omega arith) (omega arith))

-- A number that `writeBigUInt64LE` accepts is determined by the bytes that it writes.
pub write_big_uint64_le_injective :
    (a b : ℤ) (w : Bytes)
    → write_big_uint64_le a ≡ returned w
    → write_big_uint64_le b ≡ returned w
    → a ≡ b
unfolding write_big_uint64_le
write_big_uint64_le_injective (pos a) (pos b) w ha hb = ground (arith, le_bytes_injective 8 a b)
write_big_uint64_le_injective (pos a) (negsuc b) w ha hb = cc
write_big_uint64_le_injective (negsuc a) b w ha hb = cc

pub write_big_int64_le_injective :
    (a b : ℤ) (w : Bytes)
    → write_big_int64_le a ≡ returned w
    → write_big_int64_le b ≡ returned w
    → a ≡ b
unfolding write_big_int64_le
write_big_int64_le_injective (pos a) (pos b) w ha hb = ground (arith, le_bytes_injective 8 a b)
write_big_int64_le_injective (pos a) (negsuc b) w ha hb =
    ground (arith, le_bytes_injective 8 a (2 ^ 64 - 1 - b))
write_big_int64_le_injective (negsuc a) (pos b) w ha hb =
    ground (arith, le_bytes_injective 8 (2 ^ 64 - 1 - a) b)
write_big_int64_le_injective (negsuc a) (negsuc b) w ha hb =
    ground (arith, le_bytes_injective 8 (2 ^ 64 - 1 - a) (2 ^ 64 - 1 - b))

pub length-write_big_uint64_le :
    (a : ℤ) (w : Bytes) → write_big_uint64_le a ≡ returned w → length w ≡ 8
unfolding write_big_uint64_le
length-write_big_uint64_le (pos a) w h = ground (arith, length-le_bytes 8 a)
length-write_big_uint64_le (negsuc a) w h = cc

pub length-write_big_int64_le :
    (a : ℤ) (w : Bytes) → write_big_int64_le a ≡ returned w → length w ≡ 8
unfolding write_big_int64_le
length-write_big_int64_le (pos a) w h = ground (arith, length-le_bytes 8 a)
length-write_big_int64_le (negsuc a) w h = ground (arith, length-le_bytes 8 (2 ^ 64 - 1 - a))
