-- ===== src/Control/Examples.antt =====
-- The theorems on the control server at concrete states, with loads in hundredths.
use pxc_prop_strikes_back.Base.{
  ◌==◌, ◌>>=◌, ℕ, ◌+◌, ◌-◌, ◌*◌, ◌/◌, pos, ◌≡◌, refl, true, false, [], ◌∷◌, ◌++◌, none, some, ltb,
  map, take, find, nat_key, arith, length, replicate, Doubles,
}
use pxc_prop_strikes_back.Control.State.{
  IpServer, ip_server, Ref, Server, Control, sends, router_new_user, game_new_user, nzones,
}
use pxc_prop_strikes_back.Control.Assignment.{done, zone_assignment}
use pxc_prop_strikes_back.Control.Coverage.{IsCovered}
use pxc_prop_strikes_back.Control.FrontServer.{zone_assignment_lem}
use pxc_prop_strikes_back.Control.Loads.{waits, initial_mask}
use pxc_prop_strikes_back.Control.Reports.{Report, report_all, waits_until_reported}
use pxc_prop_strikes_back.Control.Users.{new_user_received}
use pxc_prop_strikes_back.Control.Addresses.{
  Row, Addresses, type_game_server, type_router_server, type_login_server, fill_ip_server_table,
}
use pxc_prop_strikes_back.Control.Connecting.{rows_of, last_of, fill_ip_server_table_lem}
use pxc_prop_strikes_back.Control.Balance.{loads, rebalance}
use pxc_prop_strikes_back.Control.IpServer.{ip_server_received}
use pxc_prop_strikes_back.Control.Unset.{ip_server_received_unset}
use pxc_prop_strikes_back.Control.MainLoop.{Main, looks, round}
use pxc_prop_strikes_back.Control.LaterRounds.{SameZones, round_without_loads}
use pxc_prop_strikes_back.Control.Owners.{new_user_after_assignment}

instance abbrev hundredths : Doubles ℕ
hundredths = record {
  zero = 0;
  one = 100;
  two = 200;
  add = λ a b. a + b;
  sub = λ a b. a - b;
  mul = λ a b. a * b / 100;
  div = λ a b. a * 100 / b;
  square = λ a. a * a / 100;
  sqrt = λ a. a;
  from_int = λ n. n * 100;
  less = ltb;
  equal = ◌==◌;
}

abbrev server_at : ℕ → Server ℕ
server_at i = record {
  id = pos i;
  ip = 49 ∷ [];
  port = 50 ∷ [];
  connection = i;
  distribution = [];
  total_load = 0;
}

-- Three servers, none with a zone.
abbrev three : Control ℕ
three = record {
  number_servers = 3;
  servers = 0 ∷ 1 ∷ 2 ∷ [];
  heap = (0, server_at 0) ∷ (1, server_at 1) ∷ (2, server_at 2) ∷ [];
  zone_server = [];
  received_mask = true ∷ true ∷ true ∷ replicate 29 false;
  login_connection = 8;
  router_connection = 9;
  clock = 0;
  events = [];
}

zone_assignment_lem_example :
    (t : Control ℕ) × (zone_assignment (λ n c. true) 4 three ≡ some (done t)) × IsCovered 0 nzones t
unfolding find
zone_assignment_lem_example =
    zone_assignment_lem (λ n c. true) (λ n c. refl) 4 three 0 (1 ∷ 2 ∷ []) (ground arith)
      (ground arith) refl ((server_at 0, refl), ((server_at 1, refl), ((server_at 2, refl), tt)))

new_user_after_assignment_example :
    (t : Control ℕ) × (zone_assignment (λ n c. true) 4 three ≡ some (done t))
    × (q : Ref) × (s : Server ℕ) × (u : Control ℕ) × (find 2 t.zone_server ≡ some q)
    × (find q t.heap ≡ some s)
    × (new_user_received (λ user. pos 2) (pos 7) (pos 5) t ≡ some u)
    × (u.events
        ≡ t.events
          ++ sends t.router_connection (router_new_user (pos 7) (pos 5) (pos 2))
            ∷ sends s.connection (game_new_user (pos 7) (pos 2))
            ∷ [])
unfolding find
new_user_after_assignment_example =
    new_user_after_assignment (λ n c. true) 4 three 0 (1 ∷ 2 ∷ []) (λ user. pos 2) (pos 7) (pos 5) 2
      (λ n c. refl) (ground arith) (ground arith) refl
      ((server_at 0, refl), ((server_at 1, refl), ((server_at 2, refl), tt))) refl (ground arith)

abbrev last_report : ℕ → Report ℕ
last_report k = record { server = pos k; zone = pos k; load = 30; remaining = pos 0 }

abbrev first_report : ℕ → Report ℕ
first_report k = record { server = pos k; zone = pos 3; load = 20; remaining = pos 1 }

waits_until_reported_example :
    (t : Control ℕ) × (report_all
        (last_report 2 ∷ first_report 0 ∷ last_report 0 ∷ last_report 1 ∷ [])
        three
      ≡ some t)
    × (waits t.received_mask ≡ false)
unfolding find initial_mask
waits_until_reported_example =
    waits_until_reported (last_report 2 ∷ first_report 0 ∷ last_report 0 ∷ last_report 1 ∷ [])
      (pos 0 ∷ pos 1 ∷ pos 2 ∷ []) 3 three refl refl
      (
        (2, refl, ground arith, refl),
        (
          (0, refl, ground arith, refl),
          ((0, refl, ground arith, refl), ((1, refl, ground arith, refl), tt)),
        ),
      )
      (λ k h. ground arith)

abbrev game_row : Row
game_row = record { ip = 49 ∷ 50 ∷ []; port = 56 ∷ 48 ∷ []; kind = type_game_server }

abbrev router_row : Row
router_row = record { ip = 51 ∷ []; port = 57 ∷ []; kind = type_router_server }

fill_ip_server_table_lem_example :
    (a : Addresses) × (fill_ip_server_table 1 (router_row ∷ game_row ∷ game_row ∷ []) ≡ some a)
    × (a.ip_servers
        ≡ map
            (λ row. row.ip)
            (take 1 (rows_of type_game_server (router_row ∷ game_row ∷ game_row ∷ []))))
    × (a.port_servers
        ≡ map
            (λ row. row.port)
            (take 1 (rows_of type_game_server (router_row ∷ game_row ∷ game_row ∷ []))))
    × (a.router ≡ last_of type_router_server (router_row ∷ game_row ∷ game_row ∷ []) none)
    × (a.login ≡ last_of type_login_server (router_row ∷ game_row ∷ game_row ∷ []) none)
fill_ip_server_table_lem_example =
    fill_ip_server_table_lem 1 (router_row ∷ game_row ∷ game_row ∷ []) (
      (ground arith, ground arith),
      ((ground arith, ground arith), ((ground arith, ground arith), tt)),
    )

-- Server 1 of three is asked for; in memory the object has an old id and no port.
abbrev table : Addresses
table = record {
  ip_servers = (49 ∷ []) ∷ (50 ∷ []) ∷ [];
  port_servers = (56 ∷ []) ∷ (57 ∷ []) ∷ [];
  router = none;
  login = none;
}

abbrev stale : IpServer
stale = record { id = pos 77; ip = replicate 16 3; port = replicate 5 3 }

ip_server_received_unset_example :
    (t : Control ℕ) × (m : IpServer) × (ip_server_received table stale
        (replicate 16 4)
        (replicate 5 4)
        (pos 1)
        9
        three
      ≡ some t)
    × (t.events ≡ sends 9 (ip_server m) ∷ [])
    × (m.id ≡ pos 77)
    × (m.port ≡ replicate 5 3)
unfolding find
ip_server_received_unset_example =
    ip_server_received_unset table stale (replicate 16 4) (replicate 5 4) (50 ∷ []) (57 ∷ [])
      (pos 0 ∷ pos 1 ∷ pos 2 ∷ []) 1 9 three refl refl (omega arith) refl

-- The second round: the mask is empty.
abbrev second_round : Main ℕ
second_round = record {
  control = record three { received_mask = replicate 32 false };
  timeout = true;
  break_flag = true;
}

round_without_loads_example :
    (r : Control ℕ) × (round (λ n c. true) ltb (looks ∷ []) second_round ≡ (
      rebalance ltb r >>= λ t.
      some (some (record second_round { control = t; break_flag = false; timeout = true }, []))))
    × (r.servers ≡ second_round.control.servers)
    × (loads r.servers r ≡ some (replicate (length r.servers) 0))
    × SameZones second_round.control r
unfolding find waits
round_without_loads_example =
    round_without_loads (λ n c. true) (λ n c. refl) ltb [] second_round refl
      ((server_at 0, refl), ((server_at 1, refl), ((server_at 2, refl), tt)))
