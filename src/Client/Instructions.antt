-- ===== src/Client/Instructions.antt =====
-- cliente/src/InstLogin.cpp, InstRouter.cpp and InstServer.cpp: what the received instructions do,
-- and the queue of the game (Client.cpp).
use pxc_prop_strikes_back.Base.{
  ℤ, pos, Bool, true, false, ◌&&◌, List, [], ◌∷◌, ◌++◌, Option, none, some, ◌>>=◌, if◌then◌else◌,
  on_found, eq_int,
}
use pxc_prop_strikes_back.Client.State.{
  Conn, Instruction, login_answer, connect_client, set_user_status, set_zone, connect_request,
  Client, record_sent, set_zone_of, router_connection,
}

-- `LoginRequestRcvd::exec`. Without a connection to the router only the waiting ends.
unfoldable pub login_request_received : ℤ → ℤ → ℤ → Option Conn → Client → Client
unfolding router_connection
login_request_received code client_id token dialled s =
    if eq_int code (pos 0)
    then (let t = record s { bad_log_on = false; user_id = client_id; token = token } in
        on_found dialled (record t { is_on_login = false })
          λ c. record_sent (connect_request c client_id token) (router_connection c t))
    else record s { bad_log_on = true; is_on_login = false }

-- `ConnectCLientReceived::exec`
unfoldable pub connect_client_received : Bool → ℤ → ℤ → Client → Option Client
unfolding set_zone_of
connect_client_received held client_id zone s =
    if eq_int s.user_id client_id && s.is_on_login
    then (do t ← set_zone_of held zone s; some (record t { is_on_login = false }))
    else some s

-- `SetUserStatusRcvd::exec`
unfoldable pub set_user_status_received : ℤ → ℤ → Client → Client
set_user_status_received user zone s = on_found s.game s λ g.
    if eq_int g.zone zone
    then record s { game = some (record g { updates = g.updates ++ user ∷ [] }) }
    else s

-- The virtual call `exec`.
unfoldable pub execute : Bool → Instruction → Client → Option Client
unfolding login_request_received connect_client_received set_user_status_received set_zone_of
execute held (login_answer code client_id token dialled) s =
    some (login_request_received code client_id token dialled s)
execute held (connect_client client_id zone) s = connect_client_received held client_id zone s
execute held (set_user_status user zone) s = some (set_user_status_received user zone s)
execute held (set_zone zone) s = set_zone_of held zone s

-- `ClientGame::execInstructions`, in the thread that holds `mGameMutex`.
unfoldable pub exec_queue : List Instruction → Client → Option Client
unfolding execute
exec_queue [] s = some s
exec_queue (i ∷ is) s = do t ← execute true i s; exec_queue is t

abbrev pub empty_queue : Client → Client
empty_queue s = record s { game = on_found s.game none λ g. some (record g { instructions = [] }) }

-- `ClientGame::step`, under the mutex: `valid` is the answer of `gameStep`.
unfoldable pub step : Bool → Client → Option Client
unfolding exec_queue
step valid s = do
  g ← s.game
  if valid then (do t ← exec_queue g.instructions s; some (empty_queue t)) else some s

-- `Client::addInstruction`: without a game the instruction is executed at once.
unfoldable pub add_instruction : Instruction → Client → Option Client
unfolding execute
add_instruction i s =
    on_found s.game (execute false i s)
      λ g. some (record s { game = some (record g { instructions = g.instructions ++ i ∷ [] }) })
