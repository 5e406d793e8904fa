-- ===== src/Routing/Zone.antt =====
-- servrouter/src/Zone.cpp. A zone points to its users; the heap of users is an argument where the
-- code follows the pointers.
use pxc_prop_strikes_back.Base.{
  ℤ, minus_one, Bool, true, false, Option, some, List, [], ◌∷◌, ◌++◌, if◌then◌else◌, ◌>>=◌, is_some,
  Map, find, put, erase, on_found, int_key, nat_key,
}
use pxc_prop_strikes_back.Routing.Event.{Ref, Message, Event}
use pxc_prop_strikes_back.Routing.User
use pxc_prop_strikes_back.Routing.User.{User}

pub record Zone : Type 0 where
  pub id : ℤ
  pub server : ℤ
  pub new_server : ℤ
  pub users : Map ℤ Ref
  pub in_transfer : Bool

unfoldable pub new : ℤ → Zone
new id = record {
  id = id;
  server = minus_one;
  new_server = minus_one;
  users = [];
  in_transfer = false;
}

unfoldable pub end_transfer : Zone → Zone
end_transfer z =
    if z.in_transfer
    then record z { server = z.new_server; new_server = minus_one; in_transfer = false }
    else z

unfoldable pub start_transfer : ℤ → Zone → Zone
start_transfer new_server z = record z { new_server = new_server; in_transfer = true }

unfoldable pub add_user : ℤ → Ref → Zone → Zone
add_user id_user p z =
    on_found (find id_user z.users) (record z { users = put id_user p z.users }) λ _. z

unfoldable pub del_user : ℤ → Zone → Zone
del_user id_user z = record z { users = erase id_user z.users }

unfoldable pub has_user : ℤ → Zone → Bool
has_user id_user z = is_some (find id_user z.users)

-- The loop of `sendToUsers`: each pointer is followed, and a dangling one is a fault.
unfoldable pub send_each : Map Ref User → Map ℤ Ref → Message → Option (List Event)
send_each heap [] m = some []
send_each heap ((i, p) ∷ us) m = do
  u ← find p heap
  rest ← send_each heap us m
  some (User.send m u ++ rest)

unfoldable pub send_to_users : Map Ref User → Zone → Message → Option (List Event)
unfolding send_each
send_to_users heap z m = send_each heap z.users m
