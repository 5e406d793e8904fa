-- ===== src/Login/Buffer.antt =====
-- The bounds of the password's buffers (servlogin/src/Login.cpp), and what the digest reads.
use pxc_prop_strikes_back.Base.{
  ℕ, zero, suc, ◌+◌, ◌≤◌, ◌<◌, ◌≡◌, refl, ap, Bool, true, not, List, [], ◌∷◌, ◌++◌, some, arith,
  ltb, leb, ◌==◌, length, take, drop, none, ◌>>=◌, ◌*◌, ◌∙◌, u32, false,
}
use pxc_prop_strikes_back.Login.Password.{Backend, to_hex, print_hex, fill_buffer, query, validate}

-- The digits fit where a byte is spare behind the array.
print_hex_fits :
    (spare at : ℕ) (bs : List ℕ)
    → 0 < spare
    → at + 2 * length bs ≤ 40
    → print_hex spare at bs ≡ some (to_hex bs)
unfolding print_hex
print_hex_fits spare at [] s h = refl
print_hex_fits spare at (b ∷ bs) s h =
    let fits : leb (at + 3) (40 + spare) ≡ true = ground arith in
    rw (print_hex_fits spare (at + 2) bs s (omega arith), fits) refl

-- They do not, where none is, and the digest is whole.
print_hex_overruns :
    (at : ℕ) (bs : List ℕ) → 0 < length bs → at + 2 * length bs ≡ 40 → print_hex 0 at bs ≡ none
unfolding print_hex
print_hex_overruns at [] s h = absurd (omega arith)
print_hex_overruns at (b ∷ []) s h =
    let over : leb (at + 3) 40 ≡ false = ground arith in rw over refl
print_hex_overruns at (b ∷ d ∷ bs) s h =
    rw (print_hex_overruns (at + 2) (d ∷ bs) (omega arith) (omega arith)) refl

length-take_le : (n : ℕ) (xs : List ℕ) → length (take n xs) ≤ n
length-take_le zero xs = omega arith
length-take_le (suc n) [] = omega arith
length-take_le (suc n) (x ∷ xs) = omega (arith, length-take_le n xs)

-- The query of a login whose names fit.
abbrev pub asked : Backend → List ℕ → List ℕ → List ℕ → List ℕ
asked b stale user pwd =
    query user (to_hex (take 20 (b.sha1 (take (length user) (fill_buffer stale pwd)))))

-- What `validate` asks when nothing overflows.
validate_fits :
    (b : Backend) (stale user pwd : List ℕ)
    → 0 < b.spare
    → length user ≤ 40
    → length pwd < 40
    → validate b stale user pwd
      ≡ (b.num_rows (asked b stale user pwd) >>= λ rows. some (not (u32 rows == 0)))
unfolding validate
validate_fits b stale user pwd s h k =
    let digest : List ℕ = take 20 (b.sha1 (take (length user) (fill_buffer stale pwd))) in
    let small : ltb (length pwd) 40 ≡ true = ground arith in
    let short : leb (length user) 40 ≡ true = ground arith in
    let printed : print_hex b.spare 0 digest ≡ some (to_hex digest) =
      print_hex_fits b.spare 0 digest s
        (omega (arith, length-take_le 20 (b.sha1 (take (length user) (fill_buffer stale pwd))))) in
    rw (small, short, printed) refl

-- The query of this login is answered, and a byte is spare behind `resultPwd`.
abbrev pub Answers : Backend → List ℕ → List ℕ → List ℕ → Type 0
Answers b stale user pwd =
    (0 < b.spare) × ((rows : ℕ) × (b.num_rows (asked b stale user pwd) ≡ some rows))

-- Names and passwords of the wire's 32 bytes, with their zero byte, fit the buffers.
pub validate_total :
    (b : Backend) (stale user pwd : List ℕ)
    → length user < 32
    → length pwd < 32
    → Answers b stale user pwd
    → (r : Bool) × (validate b stale user pwd ≡ some r)
validate_total b stale user pwd h k (s, (rows, e)) =
    (not (u32 rows == 0), validate_fits b stale user pwd s (omega arith) (omega arith) ∙ rw e refl)

-- With no spare byte behind `resultPwd` and a digest of twenty bytes, as SHA-1 has, no password
-- check of any login returns.
pub validate_overruns :
    (b : Backend) (stale user pwd : List ℕ)
    → b.spare ≡ 0
    → length (take 20 (b.sha1 (take (length user) (fill_buffer stale pwd)))) ≡ 20
    → validate b stale user pwd ≡ none
unfolding validate
validate_overruns b stale user pwd s whole =
    let over : print_hex b.spare 0 (take 20 (b.sha1 (take (length user) (fill_buffer stale pwd))))
        ≡ none =
      rw s (
        print_hex_overruns 0 (take 20 (b.sha1 (take (length user) (fill_buffer stale pwd))))
          (omega (arith, whole)) (omega (arith, whole))) in
    ground (arith, over)

take_first : (n : ℕ) (xs ys : List ℕ) → n ≤ length xs → take n (xs ++ ys) ≡ take n xs
take_first zero xs ys h = refl
take_first (suc n) [] ys h = elim h [ ]
take_first (suc n) (x ∷ xs) ys h = ap (λ l. x ∷ l) (take_first n xs ys (omega arith))

-- Only as many bytes of the password count as the user's name has: any other password that agrees
-- on those, and is no shorter, is checked alike, whatever the buffer held before, if a byte is
-- spare behind `resultPwd`.
pub validate-prefix :
    (b : Backend) (stale stale' user pwd pwd' : List ℕ)
    → 0 < b.spare
    → length user ≤ length pwd
    → length user ≤ length pwd'
    → length pwd < 40
    → length pwd' < 40
    → take (length user) pwd ≡ take (length user) pwd'
    → validate b stale user pwd ≡ validate b stale' user pwd'
unfolding fill_buffer
validate-prefix b stale stale' user pwd pwd' s h h' k k' same = rw (
  validate_fits b stale user pwd s (omega arith) k,
  validate_fits b stale' user pwd' s (omega arith) k',
  take_first (length user) pwd (0 ∷ drop (length pwd + 1) stale) h,
  take_first (length user) pwd' (0 ∷ drop (length pwd' + 1) stale') h',
  same,
)
