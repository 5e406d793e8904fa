-- ===== src/World/Pressed.antt =====
-- What the client sends for what the player presses (cliente/game/src/PXCGame.cpp).
use pxc_prop_strikes_back.Base.{
  ◌≡◌, ◌≢◌, ◌∙◌, refl, ap, ℕ, ℤ, pos, minus_one, true, false, List, [], ◌∷◌, ◌++◌, none, some,
  eq_int, eq_int_iff, arith, Bool-cases, inl, inr,
}
use pxc_prop_strikes_back.World.Play.{
  Input, mouse, key, other, destination, zone, input_from, input,
}

-- The number that was written last: the column of the mouse, or a digit.
abbrev pub last_number : List Input → ℤ → ℤ
last_number [] x = x
last_number (mouse a b ∷ es) x = last_number es a
last_number (key none ∷ es) x = last_number es x
last_number (key (some n) ∷ es) x = last_number es (pos n)
last_number (other ∷ es) x = last_number es x

input_from-append :
    (id token : ℤ) (es fs : List Input) (x : ℤ)
    → input_from id token (es ++ fs) x
      ≡ input_from id token es x ++ input_from id token fs (last_number es x)
unfolding input_from
input_from-append id token [] fs x = refl
input_from-append id token (mouse a b ∷ es) fs x =
    ap (λ l. destination id token a b ∷ l) (input_from-append id token es fs a)
input_from-append id token (key none ∷ es) fs x = elim (Bool-cases (eq_int x minus_one)) [
  | inl unset ↦ rw unset (input_from-append id token es fs x)
  | inr set ↦ rw set (ap (λ l. zone id token x ∷ l) (input_from-append id token es fs x))
]
input_from-append id token (key (some n) ∷ es) fs x =
    ap (λ l. zone id token (pos n) ∷ l) (input_from-append id token es fs (pos n))
input_from-append id token (other ∷ es) fs x = input_from-append id token es fs x

-- After any events, in one look at the queue of SDL: a digit asks for the zone of its number, and a
-- key that is no digit asks for the zone of the last digit before it or of the column of the last
-- press of the mouse, whichever came later, and for none if there was neither.
pub input_lem :
    (id token : ℤ) (es : List Input) (n : ℕ)
    → (input id token (es ++ key (some n) ∷ []) ≡ input id token es ++ zone id token (pos n) ∷ [])
      × (last_number es minus_one ≢ minus_one
          → input id token (es ++ key none ∷ [])
            ≡ input id token es ++ zone id token (last_number es minus_one) ∷ [])
      × (last_number es minus_one ≡ minus_one
          → input id token (es ++ key none ∷ []) ≡ input id token es ++ [])
unfolding input input_from
input_lem id token es n = (
  input_from-append id token es (key (some n) ∷ []) minus_one,
  λ set.
      let written : eq_int (last_number es minus_one) minus_one ≡ false =
        ground (arith, eq_int_iff (last_number es minus_one) minus_one) in
      input_from-append id token es (key none ∷ []) minus_one ∙ rw written refl,
  λ unset.
      let written : eq_int (last_number es minus_one) minus_one ≡ true =
        (eq_int_iff (last_number es minus_one) minus_one).1 unset in
      input_from-append id token es (key none ∷ []) minus_one ∙ rw written refl,
)
