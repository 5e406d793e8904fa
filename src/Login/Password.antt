-- ===== src/Login/Password.antt =====
-- servlogin/src/Login.cpp: `convertPwdToSha1` and `validate`. OpenSSL's `SHA1` and the MySQL
-- server are parameters; a C string is the list of its bytes with no zero byte.
use pxc_prop_strikes_back.Base.{
  ℕ, ◌+◌, ◌/◌, ◌%◌, Bool, not, List, [], ◌∷◌, ◌++◌, Option, none, some, ltb, leb, ◌==◌,
  if◌then◌else◌, ◌>>=◌, length, take, drop, u32,
}
use Prim.Native.String.{String}
use Prim.Native.Char.{code}

abbrev pub codes : String → List ℕ
codes String.[] = []
codes (String.◌∷◌ c s) = code c ∷ codes s

-- What the program calls and does not implement: the digest of a buffer, and how many rows a query
-- returns, or that it fails. `spare` is how many bytes behind `resultPwd` the compiler leaves
-- unused.
pub record Backend : Type 0 where
  pub sha1 : List ℕ → List ℕ
  pub num_rows : List ℕ → Option ℕ
  pub spare : ℕ

-- One hexadecimal digit of `%02x`.
hex_digit : ℕ → ℕ
hex_digit d = if ltb d 10 then 48 + d else 87 + d

unfoldable pub to_hex : List ℕ → List ℕ
unfolding hex_digit
to_hex [] = []
to_hex (b ∷ bs) = hex_digit (b / 16) ∷ hex_digit (b % 16) ∷ to_hex bs

-- `strcpy(ibuf, pwd)`: the password, its zero byte, and what the 40 bytes held before.
unfoldable pub fill_buffer : List ℕ → List ℕ → List ℕ
fill_buffer stale pwd = pwd ++ 0 ∷ drop (length pwd + 1) stale

-- The loop of `sprintf`: each call writes two digits and a zero byte from `at` on, so that the last
-- of twenty writes `resultPwd[40]`, behind the array. Past the spare bytes a write is a fault.
unfoldable pub print_hex : ℕ → ℕ → List ℕ → Option (List ℕ)
unfolding to_hex
print_hex spare at [] = some []
print_hex spare at (b ∷ bs) = do
  rest ← print_hex spare (at + 2) bs
  if leb (at + 3) (40 + spare) then some (to_hex (b ∷ []) ++ rest) else none

-- The password does not fit its buffer, or the digest would read past it: a fault.
unfoldable pub convert_pwd_to_sha1 : Backend → List ℕ → List ℕ → ℕ → Option (List ℕ)
unfolding print_hex fill_buffer
convert_pwd_to_sha1 b stale pwd length_pwd =
    if ltb (length pwd) 40
    then (if leb length_pwd 40
        then print_hex b.spare 0 (take 20 (b.sha1 (take length_pwd (fill_buffer stale pwd))))
        else none)
    else none

abbrev pub query : List ℕ → List ℕ → List ℕ
query user pwd =
    codes "SELECT * FROM USERS WHERE USERNAME='"
    ++ (user ++ (codes "' AND PASSWORD='" ++ (pwd ++ codes "'")))

-- The length handed over is that of the user's name. A query that fails has no result, whose rows
-- are then counted: a fault. The count is an `int`.
unfoldable pub validate : Backend → List ℕ → List ℕ → List ℕ → Option Bool
unfolding convert_pwd_to_sha1
validate b stale user pwd = do
  digest ← convert_pwd_to_sha1 b stale pwd (length user)
  rows ← b.num_rows (query user digest)
  some (not (u32 rows == 0))
