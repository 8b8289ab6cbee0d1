-- ===== src/Prelude/Words.antt =====
-- The conversions between 32-bit integers: a negative number stands for its two's complement.
use rust_subprocess.Prelude.Results.{ℤ, pos, negsuc}
use rust_subprocess.Prelude.Tests.{ltb, if◌then◌else◌}
use Prim.Native.Nat.{ℕ, ◌+◌, ◌-◌, ◌%◌, ◌^◌, ◌<◌}
use mathlib.Core.Path.{◌≡◌}
use native.Mathlib.Omega.{arith}

-- `x as u32` of an i32.
unfoldable pub as_u32 : ℤ → ℕ
as_u32 (pos n) = n % 2 ^ 32
as_u32 (negsuc n) = (2 ^ 32 - (n + 1) % 2 ^ 32) % 2 ^ 32

-- `x as i32` of a u32.
unfoldable pub as_i32 : ℕ → ℤ
as_i32 n = if ltb n (2 ^ 31) then pos n else negsuc (2 ^ 32 - n - 1)

-- The range of i32.
abbrev pub IsI32 : ℤ → Type 0
IsI32 (pos n) = n < 2 ^ 31
IsI32 (negsuc n) = n < 2 ^ 31

-- `x as u8`
abbrev pub as_u8 : ℕ → ℕ
as_u8 x = x % 256

pub as_i32-as_u32 : (x : ℤ) → IsI32 x → as_i32 (as_u32 x) ≡ x
unfolding as_i32 as_u32
as_i32-as_u32 (pos n) h = ground arith
as_i32-as_u32 (negsuc n) h = ground arith

pub as_u32-lt : (x : ℤ) → as_u32 x < 2 ^ 32
unfolding as_u32
as_u32-lt (pos n) = omega arith
as_u32-lt (negsuc n) = omega arith
