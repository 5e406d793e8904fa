-- ===== src/Manager/Connections.antt =====
-- The class `ConnectionManager` of conexion/source/ConnectionManager.cpp, with its list of
-- connections. What the sockets and OpenSSL answer is a parameter.
use pxc_prop_strikes_back.Base.{
  ℕ, Bool, true, false, List, [], ◌∷◌, ◌++◌, Option, none, some, ◌>>=◌, if◌then◌else◌,
}
use pxc_prop_strikes_back.Wire.Sending.{Link, close}

-- A `TCPConnectionSecurity` that was accepted. `certified` is the answer of `checkCertificate` for
-- its peer.
pub record Peer : Type 0 where
  pub link : Link
  pub callback : Bool
  pub certified : Bool

-- `listening` is `imListening`, `thread` whether `tListen` is set.
pub record Manager : Type 0 where
  pub thread : Bool
  pub listening : Bool
  pub callback : Bool
  pub on_close : Bool
  pub connections : List (Option Peer)

unfoldable pub new_manager : Manager
new_manager = record {
  thread = false;
  listening = false;
  callback = false;
  on_close = false;
  connections = [];
}

unfoldable pub set_callback_function : Bool → Manager → Manager
set_callback_function b m = record m { callback = b }

unfoldable pub set_my_close : Bool → Manager → Manager
set_my_close b m = record m { on_close = b }

unfoldable pub set_listen_online : Bool → Manager → Manager
set_listen_online b m = record m { listening = b }

-- `listenSecure`: a second thread is not started.
unfoldable pub listen_secure : Manager → Manager
listen_secure m = if m.thread then m else record m { thread = true }

-- What one round of the listening thread meets: nothing is accepted, the handshake fails, or a
-- peer is there.
pub data Attempt : Type 0 where
  no_accept : Attempt
  no_handshake : Attempt
  connects : (certified : Bool) → Attempt

-- `TCPConnectionSecurity(ssl, port)`
unfoldable pub accepted : Bool → Peer
accepted certified = record {
  link = record {
    online = true;
    ssl = true;
    on_close = false;
    listening = false;
    closed_calls = 0;
    written = [];
  };
  callback = false;
  certified = certified;
}

-- A secure peer gets the listeners and is received from.
unfoldable pub admit : Manager → Peer → Peer
admit m p = record p {
  callback = m.callback;
  link = record p.link { on_close = m.on_close; listening = true };
}

abbrev pub push_back : Manager → Peer → Manager
push_back m p = record m { connections = m.connections ++ some p ∷ [] }

module _ (shutdown : ℕ → Bool) (fuel : ℕ) where
  -- The loop of `checkConexionsOffline`: what is offline is closed and erased, and then the iterator
  -- is decremented, which is a fault at the begin of the list. `first` says that nothing is kept yet.
  unfoldable pub check_from : Bool → List (Option Peer) → Option (List (Option Peer))
  unfolding close
  check_from first [] = some []
  check_from first (none ∷ ps) = let rest = check_from false ps in if first then none else rest
  check_from first (some p ∷ ps) =
      let rest = check_from false ps in
      if p.link.online
      then (rest >>= λ kept. some (some p ∷ kept))
      else (close shutdown fuel false p.link >>= λ _. if first then none else rest)

  unfoldable pub check_conexions_offline : Manager → Option Manager
  unfolding check_from
  check_conexions_offline m =
      check_from true m.connections >>= λ ps. some (record m { connections = ps })

  unfoldable pub reject : Peer → Option Peer
  unfolding close
  reject p = close shutdown fuel false p.link >>= λ l. some (record p { link = l })

  -- With `secureBidirectional` the peer's certificate decides. A rejected peer is in the list, too.
  unfoldable pub attempt : Bool → Attempt → Manager → Option Manager
  unfolding accepted admit reject
  attempt bidirectional no_accept m = some m
  attempt bidirectional no_handshake m = some m
  attempt bidirectional (connects certified) m =
      let secure_ok = if bidirectional then certified else true in
      if secure_ok
      then some (push_back m (admit m (accepted certified)))
      else (reject (accepted certified) >>= λ p. some (push_back m p))

  -- A turn of `listenThreadSecure`, while `isListening`.
  unfoldable pub listen_turn : Bool → Attempt → Manager → Option Manager
  unfolding check_conexions_offline attempt
  listen_turn bidirectional a m =
      if m.listening then (check_conexions_offline m >>= λ t. attempt bidirectional a t) else some m
