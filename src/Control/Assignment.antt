-- ===== src/Control/Assignment.antt =====
-- `Control::zoneAssignment` of servcontrol/src/Control.cpp. `online t c` is what the test number `t`
-- of a link says of the connection `c`. A write outside of `zoneServer` is a fault (`none`).
use pxc_prop_strikes_back.Base.{
  ℕ, zero, suc, ◌-◌, ◌%◌, pos, Bool, List, [], ◌∷◌, ◌++◌, Option, none, some, ◌>>=◌, if◌then◌else◌,
  ltb, ◌==◌, find, put, nat_key, Doubles,
}
use pxc_prop_strikes_back.Control.State.{Conn, Ref, Control, sends, set_zone_to_server, nzones}

-- How far the loop over the servers has come: `done` is a return, `more` the next zone and how many
-- zones are left.
pub data Progress (D : Type 0) : Type 0 where
  done : Control D → Progress D
  more : ℕ → ℕ → Control D → Progress D

module _ {D : Type 0} ⦃double : Doubles D⦄ where
  -- The server is told of the zone, and the zone is entered with no load.
  unfoldable pub give_zone : ℕ → Ref → Control D → Option (Control D)
  give_zone i p r = do
    s ← find p r.heap
    let s' = record s {
      distribution = s.distribution ++ record { zone = pos i; load = double.zero } ∷ [];
      total_load = double.zero;
    }
    if ltb i nzones
        then some (record r {
          heap = put p s' r.heap;
          zone_server = put i p r.zone_server;
          events = r.events ++ sends s.connection (set_zone_to_server (pos i) s.id) ∷ [];
        })
        else none

module _ {D : Type 0} ⦃double : Doubles D⦄ (online : ℕ → Conn → Bool) where
  -- `c != NULL && c->isLinkOnline()`
  unfoldable pub link_online : Ref → Control D → Option (Bool × Control D)
  link_online p r = do
    s ← find p r.heap
    some (online r.clock s.connection, record r { clock = suc r.clock })

  unfoldable pub front_turn : ℕ → Ref → ℕ → Control D → Option (ℕ × Control D)
  unfolding give_zone link_online
  front_turn i p left r = do
    (up, r') ← link_online p r
    if up then (do t ← give_zone i p r'; some (left - 1, t)) else some (left, r')

  -- The first loop: the remainder of the zones goes to the front server.
  unfoldable pub front_loop : ℕ → ℕ → Ref → ℕ → Control D → Option (ℕ × Control D)
  unfolding front_turn
  front_loop zero i p left r = some (left, r)
  front_loop (suc n) i p left r = do
    (left', t) ← front_turn i p left r
    front_loop n (suc i) p left' t

  unfoldable pub turn : Ref → ℕ → ℕ → Control D → Option (Progress D)
  unfolding give_zone link_online
  turn p z left r = do
    (up, r') ← link_online p r
    if up
        then (do
          t ← give_zone z p r'
          some (if suc z == nzones then done t else more (suc z) (left - 1) t))
        else some (more z left r')

  -- The `for` loop: each server has a turn.
  unfoldable pub one_round : List Ref → ℕ → ℕ → Control D → Option (Progress D)
  unfolding turn
  one_round [] z left r = some (more z left r)
  one_round (p ∷ ps) z left r = do
    a ← turn p z left r
    elim a [ done t ↦ some (done t) | more z' left' t ↦ one_round ps z' left' t ]

  -- The `while` loop, on fuel: without it, the loop is where it is.
  unfoldable pub rounds : ℕ → ℕ → ℕ → Control D → Option (Progress D)
  unfolding one_round
  rounds zero z left r = some (more z left r)
  rounds (suc n) z left r = if left == 0 then some (done r) else (do
    a ← one_round r.servers z left r
    elim a [ done t ↦ some (done t) | more z' left' t ↦ rounds n z' left' t ])

  -- No servers, or a number of servers of 0, is a fault.
  unfoldable pub zone_assignment : ℕ → Control D → Option (Progress D)
  unfolding front_loop rounds
  zone_assignment fuel r =
      let remainder = nzones % r.number_servers in
      if r.number_servers == 0 then none else elim r.servers [
        | [] ↦ none
        | p ∷ ps ↦ do (left, t) ← front_loop remainder 0 p nzones r; rounds fuel remainder left t
      ]
