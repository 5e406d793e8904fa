-- ===== src/Routing/Destruction.antt =====
-- `Router::clear`, which the destructor calls (servrouter/src/Router.cpp).
use pxc_prop_strikes_back.Base.{
  ℤ, Option, some, ◌>>=◌, List, [], ◌∷◌, ◌++◌, Map, find, erase, nat_key,
}
use pxc_prop_strikes_back.Routing.Event.{Ref, Event}
use pxc_prop_strikes_back.Routing.User
use pxc_prop_strikes_back.Routing.Server
use pxc_prop_strikes_back.Routing.Server.{Server}
use pxc_prop_strikes_back.Routing.Router.{Router, emit}

-- A loop over the users or the zones: each pointer is deleted. Deleting a free cell is a fault.
unfoldable pub delete_each :
    {V : Type 0} → (V → List Event) → Map ℤ Ref → Map Ref V → Option (Map Ref V × List Event)
delete_each destroy [] heap = some (heap, [])
delete_each destroy ((i, p) ∷ m) heap = do
  v ← find p heap
  r ← delete_each destroy m (erase p heap)
  some (r.0, destroy v ++ r.1)

-- The loop over the servers.
unfoldable pub destroy_servers : Map ℤ Server → List Event
unfolding Server.destroy
destroy_servers [] = []
destroy_servers ((i, s) ∷ m) = Server.destroy s ++ destroy_servers m

unfoldable pub clear : Router → Option Router
unfolding delete_each destroy_servers User.destroy
clear r = do
  u ← delete_each User.destroy r.users r.user_heap
  z ← delete_each (λ z. []) r.zones r.zone_heap
  some (
      emit (u.1 ++ (z.1 ++ destroy_servers r.servers))
        (record r { users = []; zones = []; servers = []; user_heap = u.0; zone_heap = z.0 }))
