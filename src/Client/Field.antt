-- ===== src/Client/Field.antt =====
-- The names in a login request: `strncpy` into 32 bytes (cliente/src/InstLogin.cpp), and the string
-- that the login server makes of them.
use pxc_prop_strikes_back.Base.{
  ℕ, zero, suc, ◌≤◌, ◌≡◌, refl, ap, List, [], ◌∷◌, ◌++◌, some, length, ◌∙◌, take, take_all, false,
  length-append, arith, ◌==◌, ==_iff,
}
use pxc_prop_strikes_back.Wire.Receiving.{c_string}
use pxc_prop_strikes_back.Wire.RoundTrip.{AllChars}

-- `strncpy`: at most `n` characters, and NULs up to `n`.
unfoldable pub strncpy : ℕ → List ℕ → List ℕ
strncpy zero s = []
strncpy (suc n) [] = 0 ∷ strncpy n []
strncpy (suc n) (b ∷ bs) = b ∷ strncpy n bs

-- 31 bytes by `strncpy`, then the NUL.
unfoldable pub field : List ℕ → List ℕ
unfolding strncpy
field s = strncpy 31 s ++ 0 ∷ []

length-strncpy : (n : ℕ) (s : List ℕ) → length (strncpy n s) ≡ n
unfolding strncpy
length-strncpy zero s = refl
length-strncpy (suc n) [] = ap suc (length-strncpy n [])
length-strncpy (suc n) (b ∷ bs) = ap suc (length-strncpy n bs)

c_string-strncpy :
    (n : ℕ) (s : List ℕ) → AllChars s → c_string (strncpy n s ++ 0 ∷ []) ≡ some (take n s)
unfolding strncpy c_string
c_string-strncpy zero s h = refl
c_string-strncpy (suc n) [] h = refl
c_string-strncpy (suc n) (b ∷ bs) (ne, h) =
    let not_nul : (b == 0) ≡ false = ground (arith, ==_iff b 0) in
    rw (not_nul, c_string-strncpy n bs h) refl

-- A name without a NUL, in a login request: its field has 32 bytes, and the login server reads its
-- first 31 characters, so the whole name if it is not longer.
pub field_read :
    (s : List ℕ)
    → AllChars s
    → (length (field s) ≡ 32)
      × (c_string (field s) ≡ some (take 31 s))
      × (length s ≤ 31 → c_string (field s) ≡ some s)
unfolding field
field_read s h = (
  omega (arith, length-append (strncpy 31 s) (0 ∷ []), length-strncpy 31 s),
  c_string-strncpy 31 s h,
  λ short. c_string-strncpy 31 s h ∙ ap some (take_all 31 s short),
)
