-- ===== src/Plain/Size.antt =====
-- A `size_t` of 64 bits as `memcpy` copies it (conexion/source/TCPConnection.cpp): eight bytes, the
-- lowest first.
use pxc_prop_strikes_back.Base.{
  ℕ, zero, suc, ◌+◌, ◌*◌, ◌/◌, ◌%◌, ◌<◌, ◌≡◌, refl, ap, List, [], ◌∷◌, length, arith,
}

-- The lowest bytes of a number.
unfoldable pub low_bytes : ℕ → ℕ → List ℕ
low_bytes zero n = []
low_bytes (suc k) n = n % 256 ∷ low_bytes k (n / 256)

unfoldable pub size_bytes : ℕ → List ℕ
unfolding low_bytes
size_bytes n = low_bytes 8 n

unfoldable pub bytes_size : List ℕ → ℕ
bytes_size [] = 0
bytes_size (b ∷ bs) = b + 256 * bytes_size bs

-- One more than the greatest number of so many bytes.
abbrev limit : ℕ → ℕ
limit zero = 1
limit (suc k) = 256 * limit k

bytes_size-low_bytes : (k n : ℕ) → n < limit k → bytes_size (low_bytes k n) ≡ n
unfolding low_bytes bytes_size
bytes_size-low_bytes zero n h = omega arith
bytes_size-low_bytes (suc k) n h = omega (arith, bytes_size-low_bytes k (n / 256) (omega arith))

pub bytes_size-size_bytes : (n : ℕ) → n < 18446744073709551616 → bytes_size (size_bytes n) ≡ n
unfolding size_bytes
bytes_size-size_bytes n h = bytes_size-low_bytes 8 n h

length-low_bytes : (k n : ℕ) → length (low_bytes k n) ≡ k
unfolding low_bytes
length-low_bytes zero n = refl
length-low_bytes (suc k) n = ap suc (length-low_bytes k (n / 256))

pub length-size_bytes : (n : ℕ) → length (size_bytes n) ≡ 8
unfolding size_bytes
length-size_bytes n = length-low_bytes 8 n
