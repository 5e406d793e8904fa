-- ===== src/Routing/Server.antt =====
-- servrouter/src/Server.cpp. A server points to its zones.
use pxc_prop_strikes_back.Base.{
  ℤ, Bool, Option, none, some, List, [], ◌∷◌, ◌++◌, ◌>>=◌, is_some, Map, find, put, erase, on_found,
  int_key, nat_key,
}
use pxc_prop_strikes_back.Routing.Event.{Conn, Ref, Message, Event, sent, closes, deletes}
use pxc_prop_strikes_back.Routing.User.{User}
use pxc_prop_strikes_back.Routing.Zone
use pxc_prop_strikes_back.Routing.Zone.{Zone}

pub record Server : Type 0 where
  pub id : ℤ
  pub zones : Map ℤ Ref
  pub connection : Option Conn

unfoldable pub new : ℤ → Server
new id = record { id = id; zones = []; connection = none }

-- The destructor closes and deletes the connection.
unfoldable pub destroy : Server → List Event
destroy s = elim s.connection [ none ↦ [] | some c ↦ closes c ∷ deletes c ∷ [] ]

-- `addZone` reads the id of the zone that it is given.
unfoldable pub add_zone : ℤ → Ref → Server → Server
add_zone id_zone p s = record s { zones = put id_zone p s.zones }

unfoldable pub del_zone : ℤ → Server → Server
del_zone id_zone s = record s { zones = erase id_zone s.zones }

unfoldable pub has_zone : ℤ → Server → Bool
has_zone id_zone s = is_some (find id_zone s.zones)

-- An earlier connection is deleted, also if it is the new one, which the server then keeps.
unfoldable pub set_connection : Conn → Server → Server × List Event
set_connection c s = (
  record s { connection = some c },
  elim s.connection [ none ↦ [] | some old ↦ deletes old ∷ [] ],
)

unfoldable pub send : Message → Server → List Event
send m s = elim s.connection [ none ↦ [] | some c ↦ sent c m ]

-- The loop of `sendToUsers` over the server's zones.
unfoldable pub send_each : Map Ref User → Map Ref Zone → Map ℤ Ref → Message → Option (List Event)
send_each users zones [] m = some []
send_each users zones ((i, p) ∷ zs) m = do
  z ← find p zones
  here ← Zone.send_to_users users z m
  rest ← send_each users zones zs m
  some (here ++ rest)

unfoldable pub send_to_users : Map Ref User → Map Ref Zone → Server → Message → Option (List Event)
unfolding send_each
send_to_users users zones s m = send_each users zones s.zones m

unfoldable pub send_to_users_in_zone :
    Map Ref User → Map Ref Zone → Server → ℤ → Message → Option (List Event)
send_to_users_in_zone users zones s id_zone m =
    on_found (find id_zone s.zones) (some []) λ p. do z ← find p zones; Zone.send_to_users users z m
