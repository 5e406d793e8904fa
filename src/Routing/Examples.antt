-- ===== src/Routing/Examples.antt =====
-- The theorems on the router at concrete states.
use pxc_prop_strikes_back.Base.{
  ◌≡◌, refl, [], ◌∷◌, none, some, ℤ, pos, minus_one, find, put, List, int_key, nat_key,
}
use pxc_prop_strikes_back.Routing.Event.{Ref, sends, forwarded, get_server_ip, connect_client}
use pxc_prop_strikes_back.Routing.User.{User}
use pxc_prop_strikes_back.Routing.Zone
use pxc_prop_strikes_back.Routing.Server
use pxc_prop_strikes_back.Routing.Router
use pxc_prop_strikes_back.Routing.Router.{Router}
use pxc_prop_strikes_back.Routing.Sound.{IsSound}
use pxc_prop_strikes_back.Routing.Steps
use pxc_prop_strikes_back.Routing.Steps.{Reach, Reach-IsSound}
use pxc_prop_strikes_back.Routing.Instructions.{add_user_received, client_callback}
use pxc_prop_strikes_back.Routing.Received.{Received, handle_all}
use pxc_prop_strikes_back.Routing.Arrived.{client_callback_lem, add_user_received_lem}

-- A server, two zones and a transfer that cannot end, since no server has the id -1.
abbrev opened : Router
opened = record {
  servers = (pos 1, Server.new (pos 1)) ∷ [];
  zones = (pos 10, 0) ∷ [];
  users = [];
  zone_heap = (0, Zone.new (pos 10)) ∷ [];
  user_heap = [];
  next_ref = 1;
  events = [];
}

abbrev started : Router
started = record opened { zone_heap = (0, Zone.start_transfer (pos 1) (Zone.new (pos 10))) ∷ [] }

opened_reached : Reach started
unfolding find put Steps.step Router.new Router.add_server Router.add_zone
    Router.start_zone_to_server_transfer
opened_reached =
    Reach.then (Steps.start_transfer (pos 10) (pos 1))
      (Reach.then (Steps.add_zone (pos 10))
        (Reach.then (Steps.add_server (pos 1)) Reach.start tt refl) tt refl)
      tt refl

Reach-IsSound_example : IsSound started
Reach-IsSound_example = Reach-IsSound opened_reached

-- Zone 10 of server 1, user 7, and user 7 connects over link 3.
abbrev arrivals : List Received
arrivals =
    Received.zone_to_server (pos 10) (pos 1) 4
    ∷ Received.add_user (pos 7) (pos 1234) (pos 11)
    ∷ Received.connect_user (pos 7) (pos 1234) 3
    ∷ []

abbrev seven : User
seven = record { id = pos 7; token = pos 1234; zone = minus_one; connection = some 3 }

abbrev told : Router
told = record {
  servers = (pos 1, Server.new (pos 1)) ∷ [];
  zones = (pos 10, 0) ∷ [];
  users = (pos 7, 1) ∷ [];
  zone_heap = (0, Zone.start_transfer (pos 1) (Zone.new (pos 10))) ∷ [];
  user_heap = (1, seven) ∷ [];
  next_ref = 2;
  events = sends 4 (get_server_ip (pos 1)) ∷ sends 3 (connect_client (pos 7) (pos 1234)) ∷ [];
}

told_arrived : handle_all arrivals Router.new ≡ some told
unfolding find put handle_all Router.new Router.add_server Router.add_zone
    Router.start_zone_to_server_transfer Router.end_zone_to_server_transfer Router.add_user
    Router.set_user_to_zone Router.connect_user
told_arrived = refl

client_callback_lem_example : client_callback (forwarded 8) told ≡ some told
client_callback_lem_example = client_callback_lem arrivals told (forwarded 8) told_arrived

add_user_received_lem_example :
    ((p : Ref) (u : User) → find p told.user_heap ≡ some u → u.zone ≡ minus_one)
    × ((i token zone : ℤ) (pz : Ref)
        → find zone told.zones ≡ some pz
        → add_user_received i token zone told ≡ none)
add_user_received_lem_example = add_user_received_lem arrivals told told_arrived
