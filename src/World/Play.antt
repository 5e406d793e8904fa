-- ===== src/World/Play.antt =====
-- The client's `PXCGame` (cliente/game/src/PXCGame.cpp): its steps, the states that it is told, and
-- what the player presses.
use pxc_prop_strikes_back.Base.{
  ℕ, ℤ, pos, minus_one, List, [], ◌∷◌, Option, none, some, if◌then◌else◌, eq_int, Map, find, put,
  on_found, int_key, Doubles,
}
use pxc_prop_strikes_back.World.User
use pxc_prop_strikes_back.World.User.{User, Vector}
use pxc_prop_strikes_back.World.Zone.{Zone}

-- What happens to the client's zone.
pub data Turn (D : Type 0) : Type 0 where
  steps : D → Turn D
  is_told : ℤ → Vector D → Vector D → D → Turn D

module _ {D : Type 0} ⦃double : Doubles D⦄ where
  -- `logic`: all users move.
  unfoldable pub update_all : D → Map ℤ (User D) → Map ℤ (User D)
  unfolding User.update
  update_all step [] = []
  update_all step ((i, u) ∷ m) = (i, User.update step u) ∷ update_all step m

  unfoldable pub logic : D → Zone D → Zone D
  unfolding update_all
  logic step z = record z { data_of = update_all step z.data_of }

  -- `setUserState`: for a user without data a new object is made, and kept nowhere.
  unfoldable pub set_user_state : ℤ → Vector D → Vector D → D → Zone D → Zone D
  set_user_state id position direction speed z = on_found (find id z.data_of) z λ u. record z {
    data_of =
        put id (record u { position = position; direction = direction; speed = speed }) z.data_of;
  }

  unfoldable pub play : List (Turn D) → Zone D → Zone D
  unfolding logic set_user_state
  play [] z = z
  play (steps step ∷ ts) z = play ts (logic step z)
  play (is_told id position direction speed ∷ ts) z =
      play ts (set_user_state id position direction speed z)

-- An event of SDL: a button of the mouse at a place, a key, which is a digit or not, or another.
pub data Input : Type 0 where
  mouse : (x y : ℤ) → Input
  key : (digit : Option ℕ) → Input
  other : Input

-- What is sent, with the numbers of the client.
pub data Action : Type 0 where
  destination : (id token x y : ℤ) → Action
  zone : (id token zone : ℤ) → Action

-- The loop of `input`: `x` is the variable that the mouse and the digits write.
unfoldable pub input_from : ℤ → ℤ → List Input → ℤ → List Action
input_from id token [] x = []
input_from id token (mouse a b ∷ es) x = destination id token a b ∷ input_from id token es a
input_from id token (key none ∷ es) x =
    let rest = input_from id token es x in
    if eq_int x minus_one then rest else zone id token x ∷ rest
input_from id token (key (some n) ∷ es) x = zone id token (pos n) ∷ input_from id token es (pos n)
input_from id token (other ∷ es) x = input_from id token es x

unfoldable pub input : ℤ → ℤ → List Input → List Action
unfolding input_from
input id token es = input_from id token es minus_one
