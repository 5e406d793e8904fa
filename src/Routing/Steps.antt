-- ===== src/Routing/Steps.antt =====
-- Sequences of operations on the router. Each holds its mutexes, so threads interleave whole ones.
use pxc_prop_strikes_back.Base.{
  ◌≡◌, refl, Bool, Option, some, ◌>>=◌, arith, ℤ, find, int_key, nat_key,
}
use pxc_prop_strikes_back.Routing.Event.{Conn, Ref}
use pxc_prop_strikes_back.Routing.User.{User}
use pxc_prop_strikes_back.Routing.Router.{Router, new}
use pxc_prop_strikes_back.Routing.Router
use pxc_prop_strikes_back.Routing.Sound.{IsSound, new-IsSound}
use pxc_prop_strikes_back.Routing.Keeps.{
  Kept, add_server-IsSound, connect_server-IsSound, del_server-IsSound, add_user-IsSound,
  validate_user-IsSound, connect_user-IsSound,
}
use pxc_prop_strikes_back.Routing.ZoneKeeps.{
  add_zone-IsSound, start_zone_to_server_transfer-IsSound, set_user_to_zone-IsSound,
}
use pxc_prop_strikes_back.Routing.Leaving.{del_zone-IsSound, end_zone_to_server_transfer-IsSound}

-- The operations that change the router's tables.
pub data Operation : Type 0 where
  add_server : ℤ → Operation
  connect_server : ℤ → Conn → Operation
  del_server : ℤ → Operation
  add_zone : ℤ → Operation
  del_zone : ℤ → Operation
  start_transfer : ℤ → ℤ → Operation
  end_transfer : ℤ → Operation
  set_user_to_zone : ℤ → ℤ → Operation
  add_user : ℤ → ℤ → Operation
  validate_user : ℤ → ℤ → Operation
  connect_user : ℤ → ℤ → Conn → Operation
  del_user : ℤ → Operation

abbrev drop_answer : Router × Bool → Router
drop_answer (r, b) = r

unfoldable pub step : Operation → Router → Option Router
step (add_server id) r = some (Router.add_server id r)
step (connect_server id c) r = some (Router.connect_server id c r)
step (del_server id) r = some (Router.del_server id r)
step (add_zone id) r = some (Router.add_zone id r)
step (del_zone id) r = Router.del_zone id r
step (start_transfer id server) r = Router.start_zone_to_server_transfer id server r
step (end_transfer id) r = Router.end_zone_to_server_transfer id r
step (set_user_to_zone user zone) r = Router.set_user_to_zone user zone r
step (add_user id token) r = Router.add_user id token r
step (validate_user id token) r = Router.validate_user id token r >>= λ a. some (drop_answer a)
step (connect_user id token c) r = Router.connect_user id token c r
step (del_user id) r = Router.del_user id r

-- No user is deleted, and a user is moved only out of a zone that exists.
abbrev pub IsProper : Operation → Router → Type 0
IsProper (del_user id) r = ⊥
IsProper (set_user_to_zone user zone) r =
    (p : Ref) (u : User)
    → find user r.users ≡ some p
    → find p r.user_heap ≡ some u
    → (po : Ref) × (find u.zone r.zones ≡ some po)
IsProper _ r = Unit {0}

-- Each operation on a router with only live pointers returns, and every pointer of the router is
-- live after it, if it deletes no user and moves no user out of a zone that does not exist.
pub step-IsSound : (o : Operation) (r : Router) → IsSound r → IsProper o r → Kept (step o r)
unfolding step
step-IsSound (add_server id) r v p = (_, refl, add_server-IsSound r v id)
step-IsSound (connect_server id c) r v p = (_, refl, connect_server-IsSound r v id c)
step-IsSound (del_server id) r v p = (_, refl, del_server-IsSound r v id)
step-IsSound (add_zone id) r v p = (_, refl, add_zone-IsSound r v id)
step-IsSound (del_zone id) r v p = del_zone-IsSound r v id
step-IsSound (start_transfer id server) r v p = start_zone_to_server_transfer-IsSound r v id server
step-IsSound (end_transfer id) r v p = end_zone_to_server_transfer-IsSound r v id
step-IsSound (set_user_to_zone user zone) r v p = set_user_to_zone-IsSound r v user zone p
step-IsSound (add_user id token) r v p = add_user-IsSound r v id token
step-IsSound (validate_user id token) r v p =
    let q = validate_user-IsSound r v id token in (q.0, rw q.2, q.3)
step-IsSound (connect_user id token c) r v p = connect_user-IsSound r v id token c
step-IsSound (del_user id) r v p = absurd p

-- What a router can become by proper operations.
pub data Reach : Router → Type 0 where
  start : Reach new
  then : {r t : Router} (o : Operation) → Reach r → IsProper o r → step o r ≡ some t → Reach t

-- Every router that proper operations reach from the start, that is with no user deleted and no
-- user moved out of a zone that does not exist, has only live pointers: each user, zone and server
-- entry points to a live object of its id, and each zone of a server names that server.
pub Reach-IsSound : {r : Router} → Reach r → IsSound r
Reach-IsSound start = new-IsSound
Reach-IsSound (then {r} {t} o h p e) =
    let (t', f, w) = step-IsSound o r (Reach-IsSound h) p in
    let same : t' ≡ t = ground arith in rw same at w
