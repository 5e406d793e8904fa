-- ===== src/Control/Loads.antt =====
-- The loads that the game servers report: the request of the main loop and the mask that it waits
-- on (servcontrol/src/Control.cpp), and `ServerLoadRcvd::exec` (servcontrol/src/ServerLoad.cpp).
use pxc_prop_strikes_back.Base.{
  ℕ, zero, suc, ◌-◌, ℤ, pos, negsuc, Bool, true, false, ◌||◌, ◌&&◌, List, [], ◌∷◌, ◌++◌, Option,
  none, some, ◌>>=◌, if◌then◌else◌, ltb, leb, find, put, nat_key, eq_int, replicate, Doubles,
}
use pxc_prop_strikes_back.Control.State.{Conn, Ref, ZoneLoad, Control, sends, server_load}
use pxc_prop_strikes_back.Control.Assignment.{link_online}

-- `~0 >> (32 - n)`: the lowest `n` bits. A shift by 32 or more is a fault.
unfoldable pub initial_mask : ℕ → Option (List Bool)
initial_mask n =
    if leb 1 n && leb n 32 then some (replicate n true ++ replicate (32 - n) false) else none

-- `mask & ~(1 << k)`
unfoldable pub clear_bit : ℕ → List Bool → List Bool
clear_bit k [] = []
clear_bit zero (b ∷ bs) = false ∷ bs
clear_bit (suc k) (b ∷ bs) = b ∷ clear_bit k bs

-- The mask as a condition.
unfoldable pub waits : List Bool → Bool
waits [] = false
waits (b ∷ bs) = b || waits bs

-- A shift by a negative number, or by 32 or more, is a fault.
unfoldable pub clear_server : ℤ → List Bool → Option (List Bool)
unfolding clear_bit
clear_server (pos k) mask = if ltb k 32 then some (clear_bit k mask) else none
clear_server (negsuc k) mask = none

module _ {D : Type 0} ⦃double : Doubles D⦄ where
  -- Every entry of the zone takes the load, and the total grows by it each time.
  unfoldable pub enter_load : ℤ → D → List (ZoneLoad D) → D → List (ZoneLoad D) × D
  enter_load id load [] total = ([], total)
  enter_load id load (z ∷ zs) total =
      let here = eq_int z.zone id in
      let (rest, total') = enter_load id load zs (if here then double.add total load else total) in
      ((if here then record z { load = load } else z) ∷ rest, total')

  -- The loop over the servers; it ends at the first that has the id, if this is its last zone.
  unfoldable pub load_received : List Ref → ℤ → ℤ → D → ℤ → Control D → Option (Control D)
  unfolding enter_load clear_server
  load_received [] id_server id_zone load remaining r = some r
  load_received (p ∷ ps) id_server id_zone load remaining r = do
    s ← find p r.heap
    let (zones, total) = enter_load id_zone load s.distribution s.total_load
    let r' = record r {
      heap = put p (record s { distribution = zones; total_load = total }) r.heap;
    }
    let last = clear_server id_server r'.received_mask >>= λ mask.
        some (record r' { received_mask = mask })
    let others = load_received ps id_server id_zone load remaining
    if eq_int s.id id_server
        then (if eq_int remaining (pos 0) then last else others r')
        else others r

  -- `ServerLoadRcvd::exec`
  unfoldable pub server_load_received : ℤ → ℤ → D → ℤ → Control D → Option (Control D)
  unfolding load_received
  server_load_received id_server id_zone load remaining r =
      load_received r.servers id_server id_zone load remaining r

  -- The loop of `main` that asks each server for its loads.
  unfoldable pub request_loads : (ℕ → Conn → Bool) → List Ref → Control D → Option (Control D)
  unfolding link_online
  request_loads online [] r = some r
  request_loads online (p ∷ ps) r = do
    (up, r') ← link_online online p r
    s ← find p r'.heap
    request_loads online ps (
        if up
        then record r' {
          heap = put p (record s { total_load = double.zero }) r'.heap;
          events = r'.events ++ sends s.connection server_load ∷ [];
        }
        else r')
