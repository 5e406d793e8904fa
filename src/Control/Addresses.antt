-- ===== src/Control/Addresses.antt =====
-- The start of the control server: the number of game servers, the table of addresses and the
-- connections (`fillIpServerTable`, `initializeConnectionsAndServerList` and `main` of
-- servcontrol/src/Control.cpp). `strcpy` into a buffer that is too short is a fault.
use pxc_prop_strikes_back.Base.{
  ℕ, zero, suc, ◌-◌, ℤ, pos, negsuc, Bool, ◌&&◌, List, [], ◌∷◌, ◌++◌, Option, none, some, ◌>>=◌,
  if◌then◌else◌, ltb, leb, put, nat_key, eq_bytes, length, get_elem?, Doubles,
}
use pxc_prop_strikes_back.Control.State.{
  Conn, Server, Control, sends, login_online, max_game_servers, def_game_servers,
}
use pxc_prop_strikes_back.Control.Assignment.{done, more, zone_assignment}
use pxc_prop_strikes_back.Control.Loads.{initial_mask}

-- A row of the table ADDRESSES.
pub record Row : Type 0 where
  pub ip : List ℕ
  pub port : List ℕ
  pub kind : List ℕ

-- The buffers that are filled so far; those of the game servers are filled in order.
pub record Addresses : Type 0 where
  pub ip_servers : List (List ℕ)
  pub port_servers : List (List ℕ)
  pub router : Option (List ℕ × List ℕ)
  pub login : Option (List ℕ × List ℕ)

-- "game", "router" and "login".
abbrev pub type_game_server : List ℕ
type_game_server = 103 ∷ 97 ∷ 109 ∷ 101 ∷ []

abbrev pub type_router_server : List ℕ
type_router_server = 114 ∷ 111 ∷ 117 ∷ 116 ∷ 101 ∷ 114 ∷ []

abbrev pub type_login_server : List ℕ
type_login_server = 108 ∷ 111 ∷ 103 ∷ 105 ∷ 110 ∷ []

abbrev pub ip_length : ℕ
ip_length = 16

abbrev pub port_length : ℕ
port_length = 5

-- `strcpy`: the characters and the final NUL.
unfoldable pub strcpy : ℕ → List ℕ → Option (List ℕ)
strcpy capacity s = if leb (suc (length s)) capacity then some s else none

unfoldable pub fill_row : ℕ → Row → Addresses → Option Addresses
unfolding strcpy
fill_row number row a =
    if eq_bytes row.kind type_game_server && ltb (length a.ip_servers) number
    then (do
      ip ← strcpy ip_length row.ip
      port ← strcpy port_length row.port
      some (record a {
        ip_servers = a.ip_servers ++ ip ∷ [];
        port_servers = a.port_servers ++ port ∷ [];
      }))
    else if eq_bytes row.kind type_router_server
    then (do
      ip ← strcpy ip_length row.ip
      port ← strcpy port_length row.port
      some (record a { router = some (ip, port) }))
    else if eq_bytes row.kind type_login_server
    then (do
      ip ← strcpy ip_length row.ip
      port ← strcpy port_length row.port
      some (record a { login = some (ip, port) }))
    else some a

unfoldable pub fill_rows : ℕ → List Row → Addresses → Option Addresses
unfolding fill_row
fill_rows number [] a = some a
fill_rows number (row ∷ rows) a = fill_row number row a >>= λ a'. fill_rows number rows a'

unfoldable pub fill_ip_server_table : ℕ → List Row → Option Addresses
unfolding fill_rows
fill_ip_server_table number rows =
    fill_rows number rows
      (record { ip_servers = []; port_servers = []; router = none; login = none })

-- The argument of the program, after `atoi`; `none` is the exit with -1.
unfoldable pub number_of_servers : Option ℤ → Option ℕ
number_of_servers none = some def_game_servers
number_of_servers (some (negsuc n)) = none
number_of_servers (some (pos n)) =
    if ltb n 1 then none else some (if leb n max_game_servers then n else max_game_servers)

unfoldable pub count_game : List Row → ℕ
count_game [] = 0
count_game (row ∷ rows) =
    let rest = count_game rows in if eq_bytes row.kind type_game_server then suc rest else rest

unfoldable pub limit_servers : List Row → ℕ → ℕ
unfolding count_game
limit_servers rows n = if ltb (count_game rows) n then count_game rows else n

module _ {D : Type 0} ⦃double : Doubles D⦄ (connects : List ℕ → List ℕ → Bool) (unset : D) where
  -- The loop over the game servers. The connection and the server of address `i` are the objects
  -- `i`; a server's total load is not set by its constructor.
  unfoldable pub connect_servers : Addresses → ℕ → ℕ → Control D → Option (Control D)
  connect_servers a zero i r = some r
  connect_servers a (suc n) i r = do
    ip ← get_elem? a.ip_servers i
    port ← get_elem? a.port_servers i
    let s : Server D = record {
      id = pos i;
      ip = ip;
      port = port;
      connection = i;
      distribution = [];
      total_load = unset;
    }
    connect_servers a n (suc i) (
        if connects ip port
        then record r { heap = put i s r.heap; servers = r.servers ++ i ∷ [] }
        else record r { number_servers = r.number_servers - 1 })

  -- The connections to login and router are made too, and used whether they succeed or not.
  unfoldable pub initialize_connections : List Row → Control D → Option (Addresses × Control D)
  unfolding fill_ip_server_table connect_servers
  initialize_connections rows r = do
    a ← fill_ip_server_table r.number_servers rows
    t ← connect_servers a r.number_servers 0 r
    _ ← a.login
    _ ← a.router
    some (
      a,
      record t { login_connection = r.number_servers; router_connection = suc r.number_servers },
    )

  abbrev pub empty_control : ℕ → Control D
  empty_control n = record {
    number_servers = n;
    servers = [];
    heap = [];
    zone_server = [];
    received_mask = [];
    login_connection = 0;
    router_connection = 0;
    clock = 0;
    events = [];
  }

  -- `main` up to its loop, with the fuel of the assignment.
  unfoldable pub start_up : (ℕ → Conn → Bool) → ℕ → List Row → Option ℤ → Option (Control D)
  unfolding number_of_servers limit_servers initialize_connections zone_assignment initial_mask
  start_up online fuel rows argument = do
    n ← number_of_servers argument
    (_, r) ← initialize_connections rows (empty_control (limit_servers rows n))
    assigned ← zone_assignment online fuel r
    elim assigned [
      | more _ _ _ ↦ none
      | done t ↦ do
        mask ← initial_mask t.number_servers
        some (record t {
          received_mask = mask;
          events = t.events ++ sends t.login_connection login_online ∷ [];
        })
    ]
