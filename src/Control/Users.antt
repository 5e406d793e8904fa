-- ===== src/Control/Users.antt =====
-- Users that log in and out: servcontrol/src/NewUser.cpp and DisconnectUser.cpp, and
-- `Control::eliminarServidor` of servcontrol/src/Control.cpp.
use pxc_prop_strikes_back.Base.{
  ℤ, pos, negsuc, List, [], ◌∷◌, ◌++◌, Option, none, some, ◌>>=◌, if◌then◌else◌, ltb, find, nat_key,
  eq_int,
}
use pxc_prop_strikes_back.Control.State.{
  Ref, Control, sends, router_new_user, game_new_user, router_delete_user, nzones,
}

module _ {D : Type 0} where
  -- `zoneServer[zone]`: outside of the array is a fault, and so is an entry that is not set.
  unfoldable pub zone_owner : ℤ → Control D → Option Ref
  zone_owner (pos i) r = if ltb i nzones then find i r.zone_server else none
  zone_owner (negsuc i) r = none

  -- `NewUserRcvd::exec`; the database's answer for the user's zone is `zone_db`.
  unfoldable pub new_user_received : (ℤ → ℤ) → ℤ → ℤ → Control D → Option (Control D)
  unfolding zone_owner
  new_user_received zone_db id_user token r = do
    let zone = zone_db id_user
    p ← zone_owner zone r
    s ← find p r.heap
    some (record r {
      events =
          r.events
          ++ sends r.router_connection (router_new_user id_user token zone)
            ∷ sends s.connection (game_new_user id_user zone)
            ∷ [];
    })

  -- `DisconnectUserRcvd::exec`
  unfoldable pub disconnect_user_received : ℤ → Control D → Control D
  disconnect_user_received id_user r = record r {
    events = r.events ++ sends r.router_connection (router_delete_user id_user) ∷ [];
  }

  -- The loop of `eliminarServidor`: the first server with the id leaves the list.
  unfoldable pub remove_first : ℤ → List Ref → Control D → Option (List Ref)
  remove_first id [] r = some []
  remove_first id (p ∷ ps) r = do
    s ← find p r.heap
    let rest = remove_first id ps r
    if eq_int s.id id then some ps else (rest >>= λ qs. some (p ∷ qs))

  unfoldable pub eliminar_servidor : ℤ → Control D → Option (Control D)
  unfolding remove_first
  eliminar_servidor id r = do
    servers ← remove_first id r.servers r
    some (record r { servers = servers })
