-- ===== src/Routing/Event.antt =====
-- What the router does to its connections, in order: the datagrams that it sends
-- (servrouter/include/InstControl.h, InstServer.h, InstClient.h), and closing and deleting. A
-- connection that is used after it was deleted shows as an event on it behind its `deletes`.
use pxc_prop_strikes_back.Base.{ℕ, ℤ, List, [], ◌∷◌}

-- A `Connection*`.
abbrev pub Conn : Type 0
Conn = ℕ

-- A pointer to a `User` or to a `Zone`.
abbrev pub Ref : Type 0
Ref = ℕ

-- `forwarded` is a datagram of a client that is passed on as it came.
pub data Message : Type 0 where
  get_server_ip : ℤ → Message
  add_router : Message
  connect_client : ℤ → ℤ → Message
  forwarded : ℕ → Message

pub data Event : Type 0 where
  sends : Conn → Message → Event
  connects : Conn → Event
  closes : Conn → Event
  deletes : Conn → Event

-- `Connection::send`. The type of an object that was received is not in the list of the types that
-- the router sends (servrouter/src/RouterProfile.cpp), so its lookup throws and nothing is sent.
abbrev pub sent : Conn → Message → List Event
sent c (forwarded k) = []
sent c m = sends c m ∷ []
