-- ===== src/Plain/Connection.antt =====
-- The class `TCPConnection` of conexion/source/TCPConnection.cpp: connecting, closing and sending.
-- What the BIO answers is a parameter, the list of its answers; where the list ends, the call goes
-- on.
use pxc_prop_strikes_back.Base.{
  ℕ, suc, ℤ, Bool, true, false, not, ◌&&◌, List, [], ◌∷◌, ◌++◌, Option, none, some, ◌>>=◌,
  if◌then◌else◌, on_found, ltb, length, take,
}
use pxc_prop_strikes_back.Wire.Bytes.{int_bytes, read_memory}
use pxc_prop_strikes_back.Wire.Factory.{Factory, Result, ok, throws}
use pxc_prop_strikes_back.Wire.Datagram
use pxc_prop_strikes_back.Wire.Datagram.{Datagram, object_bytes}
use pxc_prop_strikes_back.Plain.Size.{size_bytes}

-- `bio` says whether `sbio` is set, `listening` whether `tListen` is, and `on_close` whether a
-- listener for the closing is. `closed_calls` counts its calls, `opened` the BIOs that there were,
-- `joins` the threads that were waited for. `thread_closes n` says what the listening thread does
-- that is waited for after `n` others: it closes the connection itself before it ends, as when its
-- read ends, or it sees that the link is off and only ends. `twice` counts the first case.
pub record TcpConnection : Type 0 where
  pub online : Bool
  pub bio : Bool
  pub on_close : Bool
  pub listening : Bool
  pub closed_calls : ℕ
  pub opened : ℕ
  pub joins : ℕ
  pub thread_closes : ℕ → Bool
  pub twice : ℕ
  pub written : List ℕ

-- `TCPConnection()`
unfoldable pub new_connection : (ℕ → Bool) → TcpConnection
new_connection thread_closes = record {
  online = false;
  bio = false;
  on_close = false;
  listening = false;
  closed_calls = 0;
  opened = 0;
  joins = 0;
  thread_closes = thread_closes;
  twice = 0;
  written = [];
}

-- `TCPConnection(BIO*, port)`
unfoldable pub accepted_connection : (ℕ → Bool) → TcpConnection
unfolding new_connection
accepted_connection thread_closes = record (new_connection thread_closes) {
  online = true;
  bio = true;
  opened = 1;
}

-- `close(threadListen)`: the listening thread is joined, unless it is the caller. A thread that
-- closes the connection meanwhile frees the BIO and calls the listener, and then the caller, which
-- has tested the BIO before, calls it again. A thread whose read does not end is waited for as long;
-- this is the call where the join returns.
unfoldable pub close : Bool → TcpConnection → TcpConnection
close own_thread c =
    let joined = not own_thread && c.listening in
    let both = joined && c.thread_closes c.joins in
    let joins = if joined then suc c.joins else c.joins in
    let before = if both && c.on_close then suc c.closed_calls else c.closed_calls in
    let calls = if c.on_close then suc before else before in
    if c.bio
    then record c {
      online = false;
      bio = false;
      listening = false;
      joins = joins;
      closed_calls = calls;
      twice = if both then suc c.twice else c.twice;
    }
    else record c { online = false }

-- `receive`
unfoldable pub receive : TcpConnection → TcpConnection
receive c = record c { listening = true }

-- An answer of `BIO_do_connect`: it connects, or should be tried again, or fails.
pub data Dial : Type 0 where
  connected : Dial
  again : Dial
  refused : Dial

-- The loop of `connect`.
unfoldable pub dial : List Dial → TcpConnection → Option (TcpConnection × Bool)
unfolding close receive
dial [] c = none
dial (connected ∷ ds) c = some (receive (record c { online = true }), true)
dial (again ∷ ds) c = dial ds c
dial (refused ∷ ds) c = some (close false c, false)

-- `connect`: `none` for a BIO that cannot be made.
unfoldable pub connect : Option (List Dial) → TcpConnection → Option (TcpConnection × Bool)
unfolding close dial
connect answers c =
    let d = if c.bio then close false c else c in
    on_found answers (some (close false d, false))
      λ ds. dial ds (record d { bio = true; opened = suc d.opened })

-- What happens at a write: it is whole, it is short, nothing goes out, it should be tried again, or
-- it fails; or the listening thread has closed the connection before.
pub data Write : Type 0 where
  full : Write
  short : ℕ → Write
  nothing : Write
  retry : Write
  fails : Write
  closed_before : Write

-- The loop of `send` and `sendAnswer`. The test of the link and the write are one step.
unfoldable pub write_loop : Bool → List Write → List ℕ → TcpConnection → Option TcpConnection
unfolding close
write_loop own_thread [] bytes c = none
write_loop own_thread (closed_before ∷ ws) bytes c = some (close own_thread (close true c))
write_loop own_thread (w ∷ ws) bytes c =
    let rest = write_loop own_thread ws bytes c in
    if c.online
    then elim w [
      | full ↦ some (record c { written = c.written ++ bytes })
      | short k ↦ some (close own_thread (record c { written = c.written ++ take k bytes }))
      | nothing ↦ some (close own_thread c)
      | retry ↦ rest
      | fails ↦ some (close own_thread c)
      | closed_before ↦ some (close own_thread c)
    ]
    else some (close own_thread c)

-- The packet: length, eight bytes from `protocol.c_str()` on, type, object.
unfoldable pub packet : List ℕ → List ℕ → ℤ → Datagram → Option (List ℕ)
unfolding Datagram.size size_bytes
packet protocol slack type d = do
  version ← read_memory 8 (protocol ++ 0 ∷ slack)
  object ← object_bytes d
  some (size_bytes (Datagram.size d) ++ version ++ int_bytes type ++ object)

-- A type that is not found sends nothing.
unfoldable pub send_typed :
    Bool → List Write → List ℕ → Datagram → List ℕ → TcpConnection → Result ℤ → Option TcpConnection
unfolding packet write_loop
send_typed own_thread ws slack d protocol c (throws e) = some c
send_typed own_thread ws slack d protocol c (ok type) = do
  bytes ← packet protocol slack type d
  write_loop own_thread ws bytes c

-- `send` and `sendAnswer`, which differ in what they close with. `none` is a fault, or a call that
-- goes on.
unfoldable pub send_with :
    Bool → List Write → List ℕ → Datagram → Factory → TcpConnection → Option TcpConnection
unfolding Datagram.type send_typed
send_with own_thread ws slack d f c =
    if ltb 8 (length f.protocol)
    then some c
    else send_typed own_thread ws slack d f.protocol c (Datagram.type d f)

unfoldable pub send :
    List Write → List ℕ → Datagram → Factory → TcpConnection → Option TcpConnection
unfolding send_with
send ws slack d f c = send_with false ws slack d f c

unfoldable pub send_answer :
    List Write → List ℕ → Datagram → Factory → TcpConnection → Option TcpConnection
unfolding send_with
send_answer ws slack d f c = send_with true ws slack d f c
