-- ===== src/World/Examples.antt =====
-- The theorems on the demonstration game at concrete states, with numbers for `double`.
use pxc_prop_strikes_back.Base.{
  ℕ, ◌+◌, ◌-◌, ◌*◌, ◌/◌, ◌==◌, ◌≡◌, refl, ℤ, pos, false, List, [], ◌∷◌, ◌++◌, none, some, ltb, find,
  int_key, Doubles, arith,
}
use pxc_prop_strikes_back.Game.Handler
use pxc_prop_strikes_back.World.User.{User, Vector}
use pxc_prop_strikes_back.World.Zone.{Zone, new_zone, joins, leaves, all_moves, Move}
use pxc_prop_strikes_back.World.Play.{Turn, steps, is_told, play, mouse, key, zone, input}
use pxc_prop_strikes_back.World.Membership.{IsAgreed, is_in, all_moves_lem}
use pxc_prop_strikes_back.World.Shown.{play_lem}
use pxc_prop_strikes_back.World.Pressed.{input_lem}

instance abbrev whole : Doubles ℕ
whole = record {
  zero = 0;
  one = 1;
  two = 2;
  add = λ a b. a + b;
  sub = λ a b. a - b;
  mul = λ a b. a * b;
  div = λ a b. a / b;
  square = λ a. a * a;
  sqrt = λ a. a;
  from_int = λ n. n;
  less = ltb;
  equal = ◌==◌;
}

abbrev crowd : List Move
crowd = joins (pos 3) ∷ joins (pos 4) ∷ leaves (pos 3) ∷ leaves (pos 9) ∷ []

all_moves_lem_example :
    (t : Zone ℕ) × (all_moves crowd new_zone ≡ some t)
    × IsAgreed t
    × ((i : ℤ) → Handler.has_user i t.users ≡ is_in i crowd false)
unfolding new_zone find Handler.has_user
all_moves_lem_example = all_moves_lem crowd new_zone (λ i. refl)

abbrev here : Vector ℕ
here = record { x = 4; y = 5; z = 0 }

abbrev walker : User ℕ
walker = record { position = here; direction = here; destination = here; speed = 1 }

abbrev square : Zone ℕ
square = record { users = pos 3 ∷ []; data_of = (pos 3, walker) ∷ [] }

abbrev turns : List (Turn ℕ)
turns = steps 2 ∷ is_told (pos 8) here here 1 ∷ []

play_lem_example :
    (u : User ℕ) × (find (pos 3) ((play (turns ++ is_told (pos 3) here here 7 ∷ []) square).data_of)
      ≡ some (record u { position = here; direction = here; speed = 7 }))
unfolding find
play_lem_example = (play_lem turns square (pos 3) here here 7).1 refl

-- The mouse at column 40, then a key that is no digit.
input_lem_example :
    input (pos 3) (pos 3) (mouse (pos 40) (pos 2) ∷ key none ∷ [])
    ≡ input (pos 3) (pos 3) (mouse (pos 40) (pos 2) ∷ []) ++ zone (pos 3) (pos 3) (pos 40) ∷ []
input_lem_example =
    (input_lem (pos 3) (pos 3) (mouse (pos 40) (pos 2) ∷ []) 0).1 (λ e. ground arith)
