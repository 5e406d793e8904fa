-- ===== src/Wire/Bytes.antt =====
-- The bytes of an `int` as `memcpy` copies them: four, the lowest first, in two's complement
-- (conexion/source/TCPConnectionSecurity.cpp).
use pxc_prop_strikes_back.Base.{
  ℕ, ◌+◌, ◌-◌, ◌*◌, ◌/◌, ◌%◌, ◌<◌, ◌≡◌, refl, ap, ℤ, pos, negsuc, true, List, [], ◌∷◌, ◌++◌, Option,
  none, some, if◌then◌else◌, to_int, u32, leb, length, take, arith, take-append, length-append,
}

-- An `int` converted to unsigned.
abbrev pub to_u32 : ℤ → ℕ
to_u32 (pos n) = u32 n
to_u32 (negsuc n) = 4294967295 - n % 4294967296

unfoldable pub int_bytes : ℤ → List ℕ
int_bytes i =
    let n = to_u32 i in n % 256 ∷ n / 256 % 256 ∷ n / 65536 % 256 ∷ n / 16777216 % 256 ∷ []

unfoldable pub bytes_int : List ℕ → ℤ
bytes_int (a ∷ b ∷ c ∷ d ∷ []) = to_int (a + 256 * b + 65536 * c + 16777216 * d)
bytes_int _ = pos 0

-- What fits in an `int`.
abbrev pub IsInt : ℤ → Type 0
IsInt (pos n) = n < 2147483648
IsInt (negsuc n) = n < 2147483648

pub length-int_bytes : (i : ℤ) → length (int_bytes i) ≡ 4
unfolding int_bytes
length-int_bytes i = refl

digits :
    (n : ℕ)
    → n < 4294967296
    → n % 256 + 256 * (n / 256 % 256) + 65536 * (n / 65536 % 256) + 16777216 * (n / 16777216 % 256)
      ≡ n
digits n h = omega arith

pub bytes_int-int_bytes : (i : ℤ) → IsInt i → bytes_int (int_bytes i) ≡ i
unfolding int_bytes bytes_int
bytes_int-int_bytes (pos n) h = rw (digits (u32 n) (omega arith)) (ground arith)
bytes_int-int_bytes (negsuc n) h =
    rw (digits (4294967295 - n % 4294967296) (omega arith)) (ground arith)

-- `memcpy` from `n` bytes on: past the end of the memory is a fault.
unfoldable pub read_memory : ℕ → List ℕ → Option (List ℕ)
read_memory n xs = if leb n (length xs) then some (take n xs) else none

pub read_memory-append :
    (xs ys : List ℕ) (n : ℕ) → length xs ≡ n → read_memory n (xs ++ ys) ≡ some xs
unfolding read_memory
read_memory-append xs ys n h =
    let fits : leb n (length (xs ++ ys)) ≡ true = ground (arith, length-append xs ys) in
    rw fits (rw (← h) (ap some (take-append xs ys)))
