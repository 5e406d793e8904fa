-- ===== src/Control/State.antt =====
-- servcontrol/include/Control.h, Server.h and ZoneLoad.h: the state of the control server.
use pxc_prop_strikes_back.Base.{ℕ, ℤ, Bool, List, Map}

-- A `Connection*`.
abbrev pub Conn : Type 0
Conn = ℕ

-- A `Server*`.
abbrev pub Ref : Type 0
Ref = ℕ

pub record ZoneLoad (D : Type 0) : Type 0 where
  pub zone : ℤ
  pub load : D

-- The connection is set right after the constructor.
pub record Server (D : Type 0) : Type 0 where
  pub id : ℤ
  pub ip : List ℕ
  pub port : List ℕ
  pub connection : Conn
  pub distribution : List (ZoneLoad D)
  pub total_load : D

-- What an `IPServerSend` has in its fields, as bytes where they are text.
pub record IpServer : Type 0 where
  pub id : ℤ
  pub ip : List ℕ
  pub port : List ℕ

-- The instructions that the control server sends.
pub data Message : Type 0 where
  server_load : Message
  remove_zone : ℤ → Message
  get_zone : ℤ → ℤ → Message
  router_change_zone : ℤ → ℤ → ℤ → Message
  set_zone_to_server : ℤ → ℤ → Message
  game_new_user : ℤ → ℤ → Message
  router_new_user : ℤ → ℤ → ℤ → Message
  router_delete_user : ℤ → Message
  login_online : Message
  ip_server : IpServer → Message

pub data Event : Type 0 where
  sends : Conn → Message → Event

-- `clock` counts the tests of a link. `received_mask` is the unsigned mask as its 32 bits, the
-- lowest first.
pub record Control (D : Type 0) : Type 0 where
  pub number_servers : ℕ
  pub servers : List Ref
  pub heap : Map Ref (Server D)
  pub zone_server : Map ℕ Ref
  pub received_mask : List Bool
  pub login_connection : Conn
  pub router_connection : Conn
  pub clock : ℕ
  pub events : List Event

abbrev pub nzones : ℕ
nzones = 4

abbrev pub max_game_servers : ℕ
max_game_servers = 50

abbrev pub def_game_servers : ℕ
def_game_servers = 3
