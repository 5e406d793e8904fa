-- ===== src/Login.antt =====
-- servlogin: the login server's tables (include/Login.h) and its handlers. A handler runs under
-- `loginMutex`, so it is one function of the tables; `none` is a fault, and what is sent is
-- recorded in the order of sending.
pub mod Password
pub mod Buffer
pub mod Sessions
pub mod Validity
pub mod Accepting
pub mod Requests
pub mod Served
pub mod Weakness
pub mod Contract
pub mod Abstraction
pub mod Refinement
mod Examples
use pxc_prop_strikes_back.Base.{
  ℕ, ◌+◌, Bool, true, false, List, [], ◌∷◌, ◌++◌, Option, none, some, if◌then◌else◌, ◌>>=◌,
  on_found, ℤ, eq_int, pos, u32, nat_key, int_key, bytes_key, to_int, Map, find, insert,
  erase_found,
}
use Password.{Backend, codes, validate}

-- A `Connection*`.
abbrev pub Conn : Type 0
Conn = ℕ

-- The datagrams that the login server sends, with the connection that each goes to.
pub data Sent : Type 0 where
  new_client : Conn → ℤ → ℤ → Sent
  client_disconnect : Conn → ℤ → ℤ → Sent
  login_answer : Conn → ℕ → List ℕ → List ℕ → ℤ → ℤ → Sent
  logout_answer : Conn → ℕ → Sent

-- The five maps of the class `Login`.
pub record Tables : Type 0 where
  pub user_token_map : Map ℤ ℤ
  pub id_to_connection_map : Map ℤ Conn
  pub connection_to_id_map : Map Conn ℤ
  pub user_to_id_map : Map (List ℕ) ℤ
  pub id_to_user_map : Map ℤ (List ℕ)

pub record Login : Type 0 where
  pub control_connected : Bool
  pub control_connection : Conn
  pub next_free_token : ℕ
  pub tables : Tables
  pub open tables use *
  pub users_connected : ℕ
  pub sent : List Sent

-- The singleton after `initializeLogin`; `controlConnection` is not set yet.
unfoldable pub initialize_login : Conn → Login
initialize_login stale = record {
  control_connected = false;
  control_connection = stale;
  next_free_token = 0;
  tables = record {
    user_token_map = [];
    id_to_connection_map = [];
    connection_to_id_map = [];
    user_to_id_map = [];
    id_to_user_map = [];
  };
  users_connected = 0;
  sent = [];
}

abbrev pub record_sent : Sent → Login → Login
record_sent m s = record s { sent = s.sent ++ m ∷ [] }

-- What goes out to the balance server.
abbrev pub control_message : (Conn → Sent) → Login → List Sent
control_message m s = if s.control_connected then m s.control_connection ∷ [] else []

-- Traffic for the balance server: sent only when it has connected once. Nothing resets
-- `controlConnected`, so a link that has closed is written through an `ssl` that is NULL: a fault.
-- A write that only now fails, whose message is lost, is counted as one too.
unfoldable pub to_control : (Conn → Bool) → (Conn → Sent) → Login → Option Login
to_control link m s =
    if s.control_connected
    then (if link s.control_connection then some (record_sent (m s.control_connection) s) else none)
    else some s

-- An answer to a client. If the link fails, the connection closes itself, and its listener locks
-- `loginMutex`, which this thread holds: the handler does not return.
unfoldable pub to_client : (Conn → Bool) → Conn → Sent → Login → Option Login
to_client link c m s = if link c then some (record_sent m s) else none

-- The session of client `id` leaves the five tables, each entry erased through `find`.
unfoldable pub forget_tables : ℤ → List ℕ → Conn → Tables → Option Tables
forget_tables id user c s = do
  users ← erase_found user s.user_to_id_map
  ids ← erase_found id s.id_to_user_map
  conns ← erase_found id s.id_to_connection_map
  owners ← erase_found c s.connection_to_id_map
  tokens ← erase_found id s.user_token_map
  some (record {
    user_token_map = tokens;
    id_to_connection_map = conns;
    connection_to_id_map = owners;
    user_to_id_map = users;
    id_to_user_map = ids;
  })

-- The same with `usersConnected--`.
unfoldable pub forget : ℤ → List ℕ → Conn → Login → Option Login
forget id user c s = forget_tables id user c s.tables >>= λ t.
    some (record s { tables = t; users_connected = u32 (s.users_connected + 4294967295) })

-- An earlier session of the same user is dropped, and the balance server is told.
unfoldable pub drop_old : (Conn → Bool) → List ℕ → Login → Option Login
unfolding forget to_control
drop_old link user s = on_found (find user s.user_to_id_map) (some s) λ old_id. do
  old_token ← find old_id s.user_token_map
  old_connection ← find old_id s.id_to_connection_map
  t ← forget old_id user old_connection s
  to_control link (λ k. client_disconnect k old_id old_token) t

-- The new session: `insert` leaves an entry that is there as it is.
unfoldable pub register_tables : ℤ → List ℕ → Conn → Tables → Tables
register_tables id user c s = record s {
  connection_to_id_map = insert c id s.connection_to_id_map;
  id_to_connection_map = insert id c s.id_to_connection_map;
  user_to_id_map = insert user id s.user_to_id_map;
  id_to_user_map = insert id user s.id_to_user_map;
}

-- The same with `nextFreeToken++` and `usersConnected++`.
unfoldable pub register : ℤ → List ℕ → Conn → Login → Login
register id user c s = record s {
  tables = register_tables id user c s.tables;
  next_free_token = u32 (s.next_free_token + 1);
  users_connected = u32 (s.users_connected + 1);
}

-- `userTokenMap.insert(pair<int,int>(clientId, token))`, where the two are one number.
unfoldable pub issue : ℤ → Tables → Tables
issue id s = record s { user_token_map = insert id id s.user_token_map }

-- A right password: the branch of `LoginRequestRcvd::exec` that changes the tables.
unfoldable pub accept_login : (Conn → Bool) → List ℕ → Conn → Login → Option Login
unfolding drop_old register issue
accept_login link user c s =
    let id = to_int s.next_free_token in
    drop_old link user (record s { tables = issue id s.tables }) >>= λ t.
    some (register id user c t)

-- The locals of `LoginRequestRcvd::exec` that a wrong password leaves unset.
pub record Unset : Type 0 where
  pub client_id : ℤ
  pub token : ℤ
  pub router_ip : List ℕ
  pub router_port : List ℕ

abbrev pub router_ip : List ℕ
router_ip = codes "127.0.0.1"

abbrev pub router_port : List ℕ
router_port = codes "3456"

unfoldable pub finish_login :
    (Conn → Bool) → Conn → ℕ → List ℕ → List ℕ → ℤ → ℤ → Login → Option Login
unfolding to_control to_client
finish_login link c code ip port id token s =
    to_control link (λ k. new_client k id token) s
    >>= to_client link c (login_answer c code ip port id token)

-- `LoginRequestRcvd::exec`.
unfoldable pub login_request :
    Backend → (Conn → Bool) → List ℕ → Unset → List ℕ → List ℕ → Conn → Login → Option Login
unfolding accept_login finish_login
login_request b link stale u user pwd c s = do
  valid ← validate b stale user pwd
  let id = to_int s.next_free_token
  if valid
      then (accept_login link user c s >>= finish_login link c 0 router_ip router_port id id)
      else finish_login link c 1 u.router_ip u.router_port u.client_id u.token s

-- The branch of `LogoutRequestRcvd::exec` with the right token: `c` is the connection that asks.
unfoldable pub accept_logout : (Conn → Bool) → ℤ → ℤ → Conn → Login → Option Login
unfolding forget to_control
accept_logout link id token c s = do
  user ← find id s.id_to_user_map
  t ← forget id user c s
  to_control link (λ k. client_disconnect k id token) t

-- `LogoutRequestRcvd::exec`.
unfoldable pub logout_request : (Conn → Bool) → ℤ → ℤ → Conn → Login → Option Login
unfolding accept_logout to_client
logout_request link id token c s =
    on_found (find id s.user_token_map) (to_client link c (logout_answer c 1) s) λ held.
      if eq_int held token
      then (accept_logout link id token c s >>= to_client link c (logout_answer c 0))
      else to_client link c (logout_answer c 2) s

-- `ClientClosedConnection::callOnClose`.
unfoldable pub call_on_close : Conn → Login → Option Login
unfolding forget
call_on_close c s =
    on_found (find c s.connection_to_id_map) (some s)
      λ id. do user ← find id s.id_to_user_map; forget id user c s

-- `ControlConnectionRcvd::exec`.
unfoldable pub control_connection_request : Conn → Login → Login
control_connection_request c s = record s { control_connected = true; control_connection = c }
