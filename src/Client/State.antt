-- ===== src/Client/State.antt =====
-- cliente/src/Client.cpp: the class `Client` with the functions that the instructions call, and the
-- class `ClientGame`.
use pxc_prop_strikes_back.Base.{
  ℕ, ℤ, minus_one, Bool, false, List, [], ◌∷◌, ◌++◌, Option, none, some, if◌then◌else◌, on_found,
}

-- A `Connection*`.
abbrev pub Conn : Type 0
Conn = ℕ

-- The instructions that the client's profile can create, with what is in them. `dialled` of a login
-- answer is the new connection to the router, if its `connect` works.
pub data Instruction : Type 0 where
  login_answer : (code : ℤ) (client_id token : ℤ) (dialled : Option Conn) → Instruction
  connect_client : (client_id zone : ℤ) → Instruction
  set_user_status : (user zone : ℤ) → Instruction
  set_zone : (zone : ℤ) → Instruction

-- What the client sends.
pub data Sent : Type 0 where
  login_request : Conn → List ℕ → List ℕ → Sent
  connect_request : Conn → ℤ → ℤ → Sent
  action : Conn → ℕ → Sent
  closes : Conn → Sent

-- A `ClientGame`: its zone, its queue, and the users whose status was set in it.
pub record ClientGame : Type 0 where
  pub zone : ℤ
  pub instructions : List Instruction
  pub updates : List ℤ

pub record Client : Type 0 where
  pub game : Option ClientGame
  pub user_id : ℤ
  pub token : ℤ
  pub user : List ℕ
  pub password : List ℕ
  pub login_link : Option Conn
  pub router : Option Conn
  pub is_on_login : Bool
  pub logged_in : Bool
  pub bad_log_on : Bool
  pub init_done : Bool
  pub sent : List Sent

unfoldable pub new_client : Client
new_client = record {
  game = none;
  user_id = minus_one;
  token = minus_one;
  user = [];
  password = [];
  login_link = none;
  router = none;
  is_on_login = false;
  logged_in = false;
  bad_log_on = false;
  init_done = false;
  sent = [];
}

abbrev pub record_sent : Sent → Client → Client
record_sent m s = record s { sent = s.sent ++ m ∷ [] }

-- `setLoginAddress`: the connection stays only if it connects.
unfoldable pub set_login_address : Option Conn → Client → Client
set_login_address dialled s = record s { login_link = dialled }

-- `PXCGameCreator::create`
unfoldable pub create_game : ℤ → ClientGame
create_game zone = record { zone = zone; instructions = []; updates = [] }

-- `setZone`. `held` says that the calling thread holds `mGameMutex`, which it then locks again: a
-- fault.
unfoldable pub set_zone_of : Bool → ℤ → Client → Option Client
unfolding create_game
set_zone_of held zone s =
    on_found s.game (some s)
      λ _. if held then none else some (record s { game = some (create_game zone) })

-- `routerConnection`: the old connection is closed.
unfoldable pub router_connection : Conn → Client → Client
router_connection c s =
    let s' = on_found s.router s λ old. record_sent (closes old) s in record s' { router = some c }

-- `sendAction`
unfoldable pub send_action : ℕ → Client → Client
send_action m s = on_found s.router s λ c. record_sent (action c m) s
