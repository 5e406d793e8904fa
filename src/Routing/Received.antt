-- ===== src/Routing/Received.antt =====
-- What the router receives, in any order (servrouter/src/InstControl.cpp, Router.cpp). The threads of
-- the connections hold the mutexes of what they change. The instructions whose bodies are empty
-- change nothing.
use pxc_prop_strikes_back.Base.{ℤ, List, [], ◌∷◌, Option, some, ◌>>=◌}
use pxc_prop_strikes_back.Routing.Event.{Conn, Message}
use pxc_prop_strikes_back.Routing.Router.{Router}
use pxc_prop_strikes_back.Routing.Instructions.{
  get_server_ip_received, set_zone_to_server, add_user_received, del_user_received,
  connect_user_received, client_callback,
}

pub data Received : Type 0 where
  get_server_ip : (id_server : ℤ) (c new_conn : Conn) → Received
  zone_to_server : (id_zone id_server : ℤ) (c : Conn) → Received
  add_user : (id_user token id_zone : ℤ) → Received
  del_user : (id_user : ℤ) → Received
  connect_user : (id_user token : ℤ) (c : Conn) → Received
  of_client : Message → Received

unfoldable pub handle : Received → Router → Option Router
unfolding get_server_ip_received set_zone_to_server add_user_received del_user_received
    connect_user_received client_callback
handle (get_server_ip id_server c new_conn) r = some (get_server_ip_received id_server c new_conn r)
handle (zone_to_server id_zone id_server c) r = set_zone_to_server id_zone id_server c r
handle (add_user id_user token id_zone) r = add_user_received id_user token id_zone r
handle (del_user id_user) r = del_user_received id_user r
handle (connect_user id_user token c) r = connect_user_received id_user token c r
handle (of_client m) r = client_callback m r

unfoldable pub handle_all : List Received → Router → Option Router
unfolding handle
handle_all [] r = some r
handle_all (x ∷ xs) r = do t ← handle x r; handle_all xs t
