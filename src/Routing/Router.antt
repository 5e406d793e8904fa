-- ===== src/Routing/Router.antt =====
-- servrouter/src/Router.cpp. Each operation holds the mutexes of what it changes and is one function
-- of the router. Users and zones are objects on a heap, since zones and servers point to them;
-- deleting one frees its cell, and following a pointer to a free cell is a fault (`none`).
use pxc_prop_strikes_back.Base.{
  ◌+◌, ℤ, Bool, false, Option, none, some, List, [], ◌∷◌, ◌++◌, ◌>>=◌, if◌then◌else◌, Map, find,
  put, erase, on_found, int_key, nat_key,
}
use pxc_prop_strikes_back.Routing.Event.{Conn, Ref, Message, Event, sends, add_router}
use pxc_prop_strikes_back.Routing.User
use pxc_prop_strikes_back.Routing.User.{User}
use pxc_prop_strikes_back.Routing.Zone
use pxc_prop_strikes_back.Routing.Zone.{Zone}
use pxc_prop_strikes_back.Routing.Server
use pxc_prop_strikes_back.Routing.Server.{Server}

pub record Router : Type 0 where
  pub servers : Map ℤ Server
  pub zones : Map ℤ Ref
  pub users : Map ℤ Ref
  pub zone_heap : Map Ref Zone
  pub user_heap : Map Ref User
  pub next_ref : Ref
  pub events : List Event

unfoldable pub new : Router
new = record {
  servers = [];
  zones = [];
  users = [];
  zone_heap = [];
  user_heap = [];
  next_ref = 0;
  events = [];
}

abbrev pub emit : List Event → Router → Router
emit es r = record r { events = r.events ++ es }

unfoldable pub add_server : ℤ → Router → Router
unfolding Server.new
add_server id r =
    on_found (find id r.servers) (record r { servers = put id (Server.new id) r.servers }) λ _. r

unfoldable pub connect_server : ℤ → Conn → Router → Router
connect_server id c r = on_found (find id r.servers) r λ s.
    let (s', es) = Server.set_connection c s in
    emit (es ++ sends c add_router ∷ []) (record r { servers = put id s' r.servers })

unfoldable pub del_server : ℤ → Router → Router
del_server id r =
    on_found (find id r.servers) r
      λ s. emit (Server.destroy s) (record r { servers = erase id r.servers })

unfoldable pub add_zone : ℤ → Router → Router
unfolding Zone.new
add_zone id r =
    on_found (find id r.zones)
      (record r {
        zones = put id r.next_ref r.zones;
        zone_heap = put r.next_ref (Zone.new id) r.zone_heap;
        next_ref = r.next_ref + 1;
      })
      λ _. r

-- The zone leaves the server that runs it, and is deleted.
unfoldable pub del_zone : ℤ → Router → Option Router
unfolding Server.del_zone
del_zone id r = on_found (find id r.zones) (some r) λ p. do
  z ← find p r.zone_heap
  let servers =
      on_found (find z.server r.servers) r.servers
        λ s. put z.server (Server.del_zone id s) r.servers
  some (record r { servers = servers; zones = erase id r.zones; zone_heap = erase p r.zone_heap })

unfoldable pub start_zone_to_server_transfer : ℤ → ℤ → Router → Option Router
unfolding Zone.start_transfer
start_zone_to_server_transfer id new_server r = on_found (find id r.zones) (some r) λ p.
    on_found (find new_server r.servers) (some r) λ _. do
      z ← find p r.zone_heap
      some (record r { zone_heap = put p (Zone.start_transfer new_server z) r.zone_heap })

-- The two servers exist: the zone moves. If they are one object, it is read after `delZone`.
abbrev pub move_zone : ℤ → Ref → Zone → Server → Router → Option Router
move_zone id p z old r = do
  let servers = put z.server (Server.del_zone id old) r.servers
  new ← find z.new_server servers
  some (record r {
    servers = put z.new_server (Server.add_zone z.id p new) servers;
    zone_heap = put p (Zone.end_transfer z) r.zone_heap;
  })

unfoldable pub end_zone_to_server_transfer : ℤ → Router → Option Router
unfolding Server.del_zone Server.add_zone Zone.end_transfer
end_zone_to_server_transfer id r = on_found (find id r.zones) (some r) λ p. do
  z ← find p r.zone_heap
  if z.in_transfer
      then (on_found (find z.server r.servers) (some r)
          λ old. on_found (find z.new_server r.servers) (some r) λ _. move_zone id p z old r)
      else some r

-- `itOldZone->second` is followed with no test that the old zone was found.
unfoldable pub set_user_to_zone : ℤ → ℤ → Router → Option Router
unfolding Zone.add_user Zone.del_user User.set_zone
set_user_to_zone id_user id_zone r = on_found (find id_user r.users) (some r) λ pu.
    on_found (find id_zone r.zones) (some r) λ pn. do
      u ← find pu r.user_heap
      zn ← find pn r.zone_heap
      let heap = put pn (Zone.add_user u.id pu zn) r.zone_heap
      po ← find u.zone r.zones
      zo ← find po heap
      some (record r {
        zone_heap = put po (Zone.del_user id_user zo) heap;
        user_heap = put pu (User.set_zone id_zone u) r.user_heap;
      })

unfoldable pub add_user : ℤ → ℤ → Router → Option Router
unfolding User.new User.set_token
add_user id token r =
    on_found (find id r.users)
      (some (record r {
        users = put id r.next_ref r.users;
        user_heap = put r.next_ref (User.new id token) r.user_heap;
        next_ref = r.next_ref + 1;
      }))
      λ p. do
        u ← find p r.user_heap
        some (record r { user_heap = put p (User.set_token token u) r.user_heap })

unfoldable pub validate_user : ℤ → ℤ → Router → Option (Router × Bool)
unfolding User.validate
validate_user id token r = on_found (find id r.users) (some (r, false)) λ p. do
  u ← find p r.user_heap
  let (u', valid) = User.validate token u
  some (record r { user_heap = put p u' r.user_heap }, valid)

unfoldable pub connect_user : ℤ → ℤ → Conn → Router → Option Router
unfolding User.validate User.set_connection
connect_user id token c r = on_found (find id r.users) (some r) λ p. do
  u ← find p r.user_heap
  let (u', valid) = User.validate token u
  let (u'', es) = User.set_connection c u'
  some (
      if valid
      then emit es (record r { user_heap = put p u'' r.user_heap })
      else record r { user_heap = put p u' r.user_heap })

-- The user leaves its zone and is deleted; its entry of `mUsers` stays.
unfoldable pub del_user : ℤ → Router → Option Router
unfolding Zone.del_user User.destroy
del_user id r = on_found (find id r.users) (some r) λ p. do
  u ← find p r.user_heap
  zone_heap ←
      on_found (find u.zone r.zones) (some r.zone_heap)
        λ pz. do z ← find pz r.zone_heap; some (put pz (Zone.del_user id z) r.zone_heap)
  some (emit (User.destroy u) (record r { zone_heap = zone_heap; user_heap = erase p r.user_heap }))

unfoldable pub send_to_server : ℤ → Message → Router → Router
unfolding Server.send
send_to_server id m r = on_found (find id r.servers) r λ s. emit (Server.send m s) r

unfoldable pub send_to_server_users : ℤ → Message → Router → Option Router
unfolding Server.send_to_users Zone.send_to_users User.send
send_to_server_users id m r =
    on_found (find id r.servers) (some r)
      λ s. do es ← Server.send_to_users r.user_heap r.zone_heap s m; some (emit es r)

-- The test is the wrong way round: `end()` is followed, and a zone that is there gets nothing.
unfoldable pub send_to_zone : ℤ → Message → Router → Option Router
send_to_zone id m r = on_found (find id r.zones) none λ _. some r

unfoldable pub send_to_user : ℤ → Message → Router → Option Router
unfolding User.send
send_to_user id m r =
    on_found (find id r.users) (some r)
      λ p. do u ← find p r.user_heap; some (emit (User.send m u) r)
