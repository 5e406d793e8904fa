-- ===== src/Routing/User.antt =====
-- servrouter/src/User.cpp
use pxc_prop_strikes_back.Base.{
  ℤ, minus_one, pos, Bool, not, eq_int, List, [], ◌∷◌, Option, none, some,
}
use pxc_prop_strikes_back.Routing.Event.{Conn, Message, Event, sent, closes, deletes}

pub record User : Type 0 where
  pub id : ℤ
  pub token : ℤ
  pub zone : ℤ
  pub connection : Option Conn

unfoldable pub new : ℤ → ℤ → User
new id token = record { id = id; token = token; zone = minus_one; connection = none }

-- The destructor closes the connection.
unfoldable pub destroy : User → List Event
destroy u = elim u.connection [ none ↦ [] | some c ↦ closes c ∷ [] ]

unfoldable pub set_token : ℤ → User → User
set_token token u = record u { token = token }

-- `return mToken = token;` is an assignment: the user takes the token, and any but 0 is valid.
unfoldable pub validate : ℤ → User → User × Bool
validate token u = (record u { token = token }, not (eq_int token (pos 0)))

unfoldable pub set_zone : ℤ → User → User
set_zone zone u = record u { zone = zone }

-- An earlier connection is deleted, also if it is the new one, which the user then keeps.
unfoldable pub set_connection : Conn → User → User × List Event
set_connection c u = (
  record u { connection = some c },
  elim u.connection [ none ↦ [] | some old ↦ deletes old ∷ [] ],
)

unfoldable pub send : Message → User → List Event
send m u = elim u.connection [ none ↦ [] | some c ↦ sent c m ]
