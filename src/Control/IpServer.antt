-- ===== src/Control/IpServer.antt =====
-- servcontrol/src/IPServer.cpp and the constructor of `IPServerSend` (include/IPServer.h): the address
-- of a game server, for the router.
use pxc_prop_strikes_back.Base.{
  ℕ, zero, suc, ℤ, pos, negsuc, Bool, false, ◌||◌, List, [], ◌∷◌, ◌++◌, Option, none, some, ◌>>=◌,
  if◌then◌else◌, ◌==◌, eq_int, find, nat_key, get_elem?, length, drop,
}
use pxc_prop_strikes_back.Control.State.{Conn, Ref, Control, IpServer, sends, ip_server}
use pxc_prop_strikes_back.Control.Addresses.{Addresses, ip_length, port_length}

-- The loops of `exec`: up to `n` characters, and none behind a NUL.
unfoldable pub copy_string : ℕ → List ℕ → List ℕ
copy_string zero s = []
copy_string (suc n) [] = []
copy_string (suc n) (b ∷ bs) = let rest = copy_string n bs in if b == 0 then b ∷ [] else b ∷ rest

-- A buffer with its first bytes written.
abbrev pub overwrite : List ℕ → List ℕ → List ℕ
overwrite stale bytes = bytes ++ drop (length bytes) stale

-- A NUL among the first `n`.
unfoldable pub has_nul : ℕ → List ℕ → Bool
has_nul zero s = false
has_nul (suc n) [] = false
has_nul (suc n) (b ∷ bs) = b == 0 || has_nul n bs

-- The constructor, over the memory that the object is made in: each loop returns at a NUL, and so
-- leaves out what stands behind it.
unfoldable pub new_ip_server : IpServer → ℤ → List ℕ → List ℕ → IpServer
unfolding copy_string has_nul
new_ip_server stale id ip port =
    let with_ip = record stale { ip = overwrite stale.ip (copy_string ip_length ip) } in
    let with_port = record with_ip { port = overwrite stale.port (copy_string port_length port) } in
    if has_nul ip_length ip
    then with_ip
    else if has_nul port_length port
    then with_port
    else record with_port { id = id }

module _ {D : Type 0} where
  -- The answer to `c` for each server of the list that has the id.
  unfoldable pub answer_each : List Ref → ℤ → IpServer → Conn → Control D → Option (Control D)
  answer_each [] id m c r = some r
  answer_each (p ∷ ps) id m c r = do
    s ← find p r.heap
    answer_each ps id m c
        (if eq_int s.id id then record r { events = r.events ++ sends c (ip_server m) ∷ [] } else r)

  -- `IPServerRcvd::exec`; `ip_stale` and `port_stale` are in the local buffers before the loops. An
  -- id outside of the table is a fault.
  unfoldable pub ip_server_received :
      Addresses → IpServer → List ℕ → List ℕ → ℤ → Conn → Control D → Option (Control D)
  unfolding new_ip_server copy_string answer_each
  ip_server_received a stale ip_stale port_stale (negsuc k) c r = none
  ip_server_received a stale ip_stale port_stale (pos k) c r = do
    ip ← get_elem? a.ip_servers k
    port ← get_elem? a.port_servers k
    let ip_send = overwrite ip_stale (copy_string ip_length (ip ++ 0 ∷ []))
    let port_send = overwrite port_stale (copy_string port_length (port ++ 0 ∷ []))
    answer_each r.servers (pos k) (new_ip_server stale (pos k) ip_send port_send) c r
