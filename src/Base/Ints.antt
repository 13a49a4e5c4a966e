-- ===== src/Base/Ints.antt =====
-- C++ int: the 32 bits of a number, which is negative from 2 ^ 31 on.
use Prim.Native.Nat.{ℕ, ◌+◌, ◌%◌, ◌^◌}
use mathlib.Core.Bool.{Bool}
use ylars.Base.Tests.{leb}

abbrev pub is_neg : ℕ → Bool
is_neg n = leb 2147483648 n

-- a + 1 and a + b, which wrap around.
abbrev pub int_suc : ℕ → ℕ
int_suc a = (a + 1) % 2 ^ 32

abbrev pub int_add : ℕ → ℕ → ℕ
int_add a b = (a + b) % 2 ^ 32

-- a <= b of two ints.
abbrev pub int_le : ℕ → ℕ → Bool
int_le a b = leb ((a + 2 ^ 31) % 2 ^ 32) ((b + 2 ^ 31) % 2 ^ 32)
