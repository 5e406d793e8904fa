-- ===== src/Game/Server.antt =====
-- servjuego/src/GameServer.cpp and the instructions of InstControl.cpp and InstRouter.cpp.
use pxc_prop_strikes_back.Base.{
  ℕ, ◌-◌, ℤ, pos, minus_one, Bool, not, ◌||◌, List, [], ◌∷◌, ◌++◌, if◌then◌else◌, eq_int, Doubles,
  Map, find, put, insert, erase, int_key, on_found, length,
}
use pxc_prop_strikes_back.Game.Handler
use pxc_prop_strikes_back.Game.Handler.{Handler, Defaults}

-- A `Connection*`.
abbrev pub Conn : Type 0
Conn = ℕ

-- What is sent: a load report (server, zone, load, how many remain), or a datagram for the clients.
pub data Sent (D : Type 0) : Type 0 where
  load_answer : Conn → ℤ → ℤ → D → ℤ → Sent D
  forwarded : Conn → ℕ → Sent D

pub record Game (D : Type 0) : Type 0 where
  pub server_id : ℤ
  pub zones : Map ℤ (Handler D)
  pub clients : Map ℤ ℤ
  pub routers : List Conn
  pub sent : List (Sent D)

-- The instructions that arrive.
pub data Instruction : Type 0 where
  server_load_order : Instruction
  set_zone_order : Instruction
  get_zone_order : Instruction
  set_server_ip : Instruction
  set_zone_to_server : ℤ → ℤ → Instruction
  add_user : ℤ → ℤ → Instruction
  del_user : ℤ → Instruction
  add_router : Instruction

module _ {D : Type 0} ⦃double : Doubles D⦄ where
  unfoldable pub new_game : Game D
  new_game = record { server_id = minus_one; zones = []; clients = []; routers = []; sent = [] }

  -- `serverId(id)`: only the first id counts.
  unfoldable pub set_server_id : ℤ → Game D → Game D
  set_server_id id g = record g {
    server_id = if eq_int g.server_id minus_one then id else g.server_id;
  }

  unfoldable pub add_client : ℤ → ℤ → Game D → Game D
  add_client client zone g = record g { clients = put client zone g.clients }

  unfoldable pub del_client : ℤ → Game D → Game D
  unfolding Handler.del_user
  del_client client g = on_found (find client g.clients) g λ zone.
      let zones =
        on_found (find zone g.zones) g.zones
          λ h. put zone (record h { users = Handler.del_user client h.users }) g.zones in
      record g { zones = zones; clients = erase client g.clients }

  unfoldable pub start_zone : Defaults D → ℤ → Game D → Game D
  unfolding Handler.new
  start_zone d zone g =
      on_found (find zone g.zones) (record g { zones = insert zone (Handler.new d) g.zones }) λ _. g

  -- A zone stops if it has been marked, or is forced to.
  unfoldable pub stop_zone : ℤ → Bool → Game D → Game D
  stop_zone zone force g = on_found (find zone g.zones) g λ h.
      if force || not (eq_int h.detachable minus_one)
      then record g { zones = erase zone g.zones }
      else g

  unfoldable pub stop_all : Game D → Game D
  stop_all g = record g { zones = [] }

  unfoldable pub mark_for_detach : ℤ → ℤ → Game D → Game D
  unfolding Handler.mask_as_detachable
  mark_for_detach zone server g =
      on_found (find zone g.zones) g
        λ h. record g { zones = put zone (Handler.mask_as_detachable server h) g.zones }

  -- `ZoneHandler::addInstruction` has no body: a queued instruction is lost.
  unfoldable pub queue_instruction : ℤ → Instruction → Conn → Game D → Game D
  queue_instruction zone i c g = on_found (find zone g.zones) g λ _. g

  unfoldable pub add_router_connection : Conn → Game D → Game D
  add_router_connection c g = record g { routers = g.routers ++ c ∷ [] }

  -- The loop of `SendZoneLoads`: `remaining` counts down before each report.
  unfoldable pub zone_loads : Conn → ℤ → Map ℤ (Handler D) → ℕ → List (Sent D)
  zone_loads c server [] remaining = []
  zone_loads c server ((zone, h) ∷ zs) remaining =
      load_answer c server zone h.load (pos (remaining - 1))
      ∷ zone_loads c server zs (remaining - 1)

  unfoldable pub send_zone_loads : Conn → Game D → Game D
  unfolding zone_loads
  send_zone_loads c g = record g {
    sent = g.sent ++ zone_loads c g.server_id g.zones (length g.zones);
  }

  unfoldable pub forward : List Conn → ℕ → List (Sent D)
  forward [] m = []
  forward (c ∷ cs) m = forwarded c m ∷ forward cs m

  unfoldable pub send_to_clients : ℕ → Game D → Game D
  unfolding forward
  send_to_clients m g = record g { sent = g.sent ++ forward g.routers m }

  -- `SetZoneToServerRcvd::exec`
  unfoldable pub set_zone_to_server_received : Defaults D → ℤ → ℤ → Game D → Game D
  unfolding set_server_id start_zone
  set_zone_to_server_received d zone server g =
      let g' = if eq_int g.server_id minus_one then set_server_id server g else g in
      if eq_int g'.server_id server then start_zone d zone g' else g'

  -- `received->exec(c)`, the virtual call. The `exec` of AddUserRcvd, DelUserRcvd and AddRouterRcvd
  -- are not const, so they are other functions than `Instruction::exec`, and what is called for them
  -- is the empty `Datagram::exec`.
  unfoldable pub execute : Defaults D → Instruction → Conn → Game D → Game D
  unfolding send_zone_loads set_zone_to_server_received
  execute d server_load_order c g = send_zone_loads c g
  execute d set_zone_order c g = g
  execute d get_zone_order c g = g
  execute d set_server_ip c g = g
  execute d (set_zone_to_server zone server) c g = set_zone_to_server_received d zone server g
  execute d (add_user user zone) c g = g
  execute d (del_user user) c g = g
  execute d add_router c g = g

  -- `ControlListener` executes at once, `RouterListener` queues for the zone that the datagram names.
  unfoldable pub control_callback : Defaults D → Instruction → Conn → Game D → Game D
  unfolding execute
  control_callback d i c g = execute d i c g

  unfoldable pub router_callback : ℤ → Instruction → Conn → Game D → Game D
  unfolding queue_instruction
  router_callback target i c g = queue_instruction target i c g
