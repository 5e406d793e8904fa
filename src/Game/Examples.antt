-- ===== src/Game/Examples.antt =====
-- The theorems on a game server at concrete states, with loads in hundredths.
use pxc_prop_strikes_back.Base.{
  ◌==◌, ℕ, ◌+◌, ◌-◌, ◌*◌, ◌/◌, ℤ, pos, minus_one, ◌≡◌, refl, true, false, List, [], ◌∷◌, some, ltb,
  arith, replicate, Doubles, Map, find, length, int_key,
}
use pxc_prop_strikes_back.Control.State.{Server, Control}
use pxc_prop_strikes_back.Control.Waiting.{bit}
use pxc_prop_strikes_back.Control.Reports.{report_all}
use pxc_prop_strikes_back.Game.Handler.{Handler, Defaults, second_over}
use pxc_prop_strikes_back.Game.Server.{
  new_game, set_zone_to_server, add_user, send_to_clients, zone_loads,
}
use pxc_prop_strikes_back.Game.Dilation.{second_over_lem}
use pxc_prop_strikes_back.Game.Reached.{Arrival, control, router, receive_all, receive_all_deaf}
use pxc_prop_strikes_back.Game.Lifecycle.{Stage, Life, act_all, stop}
use pxc_prop_strikes_back.Game.Stopping.{stop_lem}
use pxc_prop_strikes_back.Game.Reports.{arriving, zone_loads_arrive}

instance abbrev hundredths : Doubles ℕ
hundredths = record {
  zero = 0;
  one = 100;
  two = 200;
  add = λ a b. a + b;
  sub = λ a b. a - b;
  mul = λ a b. a * b / 100;
  div = λ a b. a * 100 / b;
  square = λ a. a * a / 100;
  sqrt = λ a. a;
  from_int = λ n. n * 100;
  less = ltb;
  equal = ◌==◌;
}

abbrev defaults : Defaults ℕ
defaults = record { min_step_time = 3; max_step_time = 10; boundary = 80; decreaser = 90 }

-- A zone with a user, in which time runs slower.
abbrev slow : Handler ℕ
slow = record {
  users = pos 4 ∷ [];
  detachable = minus_one;
  min_step_time = 3;
  max_step_time = 10;
  boundary = 80;
  decreaser = 90;
  delay = 70;
  load = 95;
}

second_over_lem_example :
    (ltb 100 (second_over slow 5).load ≡ false)
    × (ltb (second_over slow 5).load 0 ≡ false)
    × (ltb (second_over slow 5).load slow.boundary ≡ true
        → ltb slow.boundary (second_over slow 5).load ≡ false
        → ltb (second_over slow 5).delay 100 ≡ false)
second_over_lem_example = second_over_lem slow 5 refl refl refl

abbrev arrivals : List Arrival
arrivals =
    control (set_zone_to_server (pos 2) (pos 1)) 0
    ∷ router (pos 2) (add_user (pos 4) (pos 2)) 1
    ∷ []

receive_all_deaf_example :
    ((receive_all defaults arrivals new_game).clients ≡ [])
    × ((receive_all defaults arrivals new_game).routers ≡ [])
    × ((send_to_clients 9 (receive_all defaults arrivals new_game)).sent
        ≡ (receive_all defaults arrivals new_game).sent)
receive_all_deaf_example = receive_all_deaf defaults arrivals 9

abbrev server_at : ℕ → Server ℕ
server_at i = record {
  id = pos i;
  ip = 49 ∷ [];
  port = 50 ∷ [];
  connection = i;
  distribution = [];
  total_load = 0;
}

abbrev two_servers : Control ℕ
two_servers = record {
  number_servers = 2;
  servers = 0 ∷ 1 ∷ [];
  heap = (0, server_at 0) ∷ (1, server_at 1) ∷ [];
  zone_server = [];
  received_mask = true ∷ true ∷ replicate 30 false;
  login_connection = 8;
  router_connection = 9;
  clock = 0;
  events = [];
}

abbrev two_zones : Map ℤ (Handler ℕ)
two_zones = (pos 0, slow) ∷ (pos 3, slow) ∷ []

zone_loads_arrive_example :
    (t : Control ℕ) × (report_all
        (arriving (zone_loads 5 (pos 1) two_zones (length two_zones)))
        two_servers
      ≡ some t)
    × (bit 1 t.received_mask ≡ false)
unfolding find
zone_loads_arrive_example =
    zone_loads_arrive 5 1 two_zones (pos 0 ∷ pos 1 ∷ []) two_servers (ground arith) refl refl
      (ground arith)

-- The thread of a zone in its loop, holding the mutex, before the second test.
abbrev in_loop : Life
in_loop = record { run = true; locked = true; stopping = false; stage = Stage.entered; steps = 7 }

stop_lem_example :
    ((act_all (true ∷ true ∷ true ∷ []) (stop in_loop)).stage ≡ Stage.finished)
    × ((act_all (true ∷ true ∷ true ∷ []) (stop in_loop)).steps ≡ 7)
    × ((act_all (true ∷ true ∷ true ∷ []) (stop in_loop)).locked ≡ false)
stop_lem_example =
    (stop_lem in_loop (true ∷ true ∷ true ∷ []) refl).0 (λ e. ground arith) (λ e. ground arith)
      (omega arith)
