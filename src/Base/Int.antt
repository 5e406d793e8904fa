-- ===== src/Base/Int.antt =====
-- The C++ `int`, over the native numbers, with the conversion of an unsigned 32-bit value.
use Prim.Native.Nat.{ℕ, ◌-◌, ◌%◌, ◌<◌}
use mathlib.Core.Path.{◌≡◌}
use mathlib.Core.Logic.{◌↔◌}
use mathlib.Core.Bool.{Bool, true, false}
use native.Mathlib.Omega.{arith}
use pxc_prop_strikes_back.Base.Tests.{ltb, ◌==◌, if◌then◌else◌}

-- `negsuc n` is -(n + 1).
pub data ℤ : Type 0 where
  pos : ℕ → ℤ
  negsuc : ℕ → ℤ

abbrev pub minus_one : ℤ
minus_one = negsuc 0

abbrev pub eq_int : ℤ → ℤ → Bool
eq_int (pos a) (pos b) = a == b
eq_int (negsuc a) (negsuc b) = a == b
eq_int _ _ = false

abbrev pub ltb_int : ℤ → ℤ → Bool
ltb_int (pos a) (pos b) = ltb a b
ltb_int (negsuc a) (negsuc b) = ltb b a
ltb_int (negsuc a) (pos b) = true
ltb_int (pos a) (negsuc b) = false

pub eq_int_iff : (a b : ℤ) → (eq_int a b ≡ true) ↔ (a ≡ b)
eq_int_iff (pos a) (pos b) = ground arith
eq_int_iff (negsuc a) (negsuc b) = ground arith
eq_int_iff (pos a) (negsuc b) = ground arith
eq_int_iff (negsuc a) (pos b) = ground arith

-- Arithmetic on `unsigned int` wraps.
abbrev pub u32 : ℕ → ℕ
u32 n = n % 4294967296

-- An `unsigned int` assigned to an `int`: two's complement.
abbrev pub to_int : ℕ → ℤ
to_int n = if ltb n 2147483648 then pos n else negsuc (4294967295 - n)

pub to_int-injective : (m n : ℕ) → m < 4294967296 → n < 4294967296 → to_int m ≡ to_int n → m ≡ n
to_int-injective m n h k e = ground arith
