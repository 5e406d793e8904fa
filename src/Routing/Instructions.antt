-- ===== src/Routing/Instructions.antt =====
-- servrouter/src/InstControl.cpp, and the listeners of Router.cpp.
use pxc_prop_strikes_back.Base.{ℤ, minus_one, Option, some, ◌>>=◌, [], ◌∷◌, if◌then◌else◌, eq_int}
use pxc_prop_strikes_back.Routing.Event.{
  Conn, Message, sends, connects, get_server_ip, connect_client,
}
use pxc_prop_strikes_back.Routing.Router.{
  Router, emit, connect_server, add_server, add_zone, start_zone_to_server_transfer,
  end_zone_to_server_transfer, set_user_to_zone, add_user, del_user, connect_user,
  send_to_server_users,
}

-- ID 6: `GetServerIpRvcd::exec`. `new_conn` is the new object's address; the connection that is told
-- to connect is `c`, over which the instruction came.
unfoldable pub get_server_ip_received : ℤ → Conn → Conn → Router → Router
get_server_ip_received id_server c new_conn r =
    connect_server id_server new_conn (emit (connects c ∷ []) r)

-- ID 7: `SetZoneToServerRcvd::exec`.
unfoldable pub set_zone_to_server : ℤ → ℤ → Conn → Router → Option Router
set_zone_to_server id_zone id_server c r =
    let r1 =
      if eq_int id_server minus_one
      then r
      else emit (sends c (get_server_ip id_server) ∷ []) (add_server id_server r) in
    let r2 = if eq_int id_zone minus_one then r1 else add_zone id_zone r1 in
    do
      r3 ← start_zone_to_server_transfer id_zone id_server r2
      end_zone_to_server_transfer id_zone r3

-- ID 60: `AddUserRcvd::exec`.
unfoldable pub add_user_received : ℤ → ℤ → ℤ → Router → Option Router
add_user_received id_user token zone_id r = do
  r' ← add_user id_user token r
  set_user_to_zone id_user zone_id r'

-- ID 61: `DelUserRcvd::exec`.
unfoldable pub del_user_received : ℤ → Router → Option Router
del_user_received id_user r = del_user id_user r

-- ID 200: `ConnectUserRcvd::exec`; the answer goes out whatever `connectUser` did.
unfoldable pub connect_user_received : ℤ → ℤ → Conn → Router → Option Router
connect_user_received id_user token c r = do
  r' ← connect_user id_user token c r
  some (emit (sends c (connect_client id_user token) ∷ []) r')

-- `Datagram::targetId`, which no datagram of the router overrides.
abbrev pub target_id : Message → ℤ
target_id m = minus_one

-- `ClientListener::callbackFunction`: a datagram goes on to the users of its target.
unfoldable pub client_callback : Message → Router → Option Router
client_callback m r = send_to_server_users (target_id m) m r
