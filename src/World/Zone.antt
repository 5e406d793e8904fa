-- ===== src/World/Zone.antt =====
-- The class `PXCZone` of servjuego/game/src/PXCZone.cpp: a set of users, and their data.
use pxc_prop_strikes_back.Base.{
  ℤ, List, [], ◌∷◌, Option, some, ◌>>=◌, if◌then◌else◌, Map, find, put, erase, int_key, Doubles,
}
use pxc_prop_strikes_back.Game.Handler
use pxc_prop_strikes_back.World.User
use pxc_prop_strikes_back.World.User.{User, Vector}

pub record Zone (D : Type 0) : Type 0 where
  pub users : List ℤ
  pub data_of : Map ℤ (User D)

-- What comes to a zone.
pub data Move : Type 0 where
  joins : ℤ → Move
  leaves : ℤ → Move

module _ {D : Type 0} ⦃double : Doubles D⦄ where
  unfoldable pub new_zone : Zone D
  new_zone = record { users = []; data_of = [] }

  -- The user that `addUser` makes.
  unfoldable pub first_user : User D
  unfolding User.new
  first_user =
      User.new (record { x = double.zero; y = double.zero; z = double.zero })
        (record { x = double.one; y = double.zero; z = double.zero })

  unfoldable pub add_user : ℤ → Zone D → Zone D
  unfolding Handler.has_user Handler.add_user first_user
  add_user id z =
      if Handler.has_user id z.users
      then z
      else record { users = Handler.add_user id z.users; data_of = put id first_user z.data_of }

  -- A user of the set without data is a fault.
  unfoldable pub del_user : ℤ → Zone D → Option (Zone D)
  unfolding Handler.has_user Handler.del_user
  del_user id z =
      if Handler.has_user id z.users
      then (do
        u ← find id z.data_of
        some (record { users = Handler.del_user id z.users; data_of = erase id z.data_of }))
      else some z

  unfoldable pub move : Move → Zone D → Option (Zone D)
  unfolding add_user del_user
  move (joins id) z = some (add_user id z)
  move (leaves id) z = del_user id z

  unfoldable pub all_moves : List Move → Zone D → Option (Zone D)
  unfolding move
  all_moves [] z = some z
  all_moves (m ∷ ms) z = do t ← move m z; all_moves ms t
