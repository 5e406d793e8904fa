-- ===== src/Wire/Sending.antt =====
-- `TCPConnectionSecurity::send`, `sendAnswer` and `close` of
-- conexion/source/TCPConnectionSecurity.cpp. What OpenSSL answers is a parameter: `writes n` says
-- whether the write number `n` of a message writes its byte, `shutdown n` whether the call number
-- `n` of `SSL_shutdown` returns other than 0.
use pxc_prop_strikes_back.Base.{
  ℕ, zero, suc, ℤ, Bool, true, false, not, ◌&&◌, List, [], ◌∷◌, ◌++◌, Option, none, some, ◌>>=◌,
  if◌then◌else◌, ltb, length, to_int, u32,
}
use pxc_prop_strikes_back.Wire.Bytes.{int_bytes, read_memory}
use pxc_prop_strikes_back.Wire.Factory.{Factory, Result, ok, throws}
use pxc_prop_strikes_back.Wire.Datagram
use pxc_prop_strikes_back.Wire.Datagram.{Datagram, object_bytes}

-- `written` are the bytes that went out, `closed_calls` counts the calls of `callOnClose`.
pub record Link : Type 0 where
  pub online : Bool
  pub ssl : Bool
  pub on_close : Bool
  pub listening : Bool
  pub closed_calls : ℕ
  pub written : List ℕ

-- The loop of `close`, on fuel; `none` is a loop that goes on.
unfoldable pub shut_down : (ℕ → Bool) → ℕ → ℕ → Option ℕ
shut_down shutdown zero i = none
shut_down shutdown (suc n) i =
    let rest = shut_down shutdown n (suc i) in if shutdown i then some i else rest

-- The listening thread is joined, unless it is the caller.
unfoldable pub join_listener : Bool → Link → Link
join_listener own_thread l =
    if not own_thread && l.listening then record l { listening = false } else l

unfoldable pub close : (ℕ → Bool) → ℕ → Bool → Link → Option Link
unfolding shut_down join_listener
close shutdown fuel own_thread l =
    if l.online
    then if l.ssl
      then (do
        _ ← shut_down shutdown fuel 0
        let calls = if l.on_close then suc l.closed_calls else l.closed_calls
        some (
            join_listener own_thread
              (record l { online = false; ssl = false; closed_calls = calls })))
      else some (join_listener own_thread (record l { online = false }))
    else some (join_listener own_thread (record l { ssl = false }))

-- The write loop: a byte at a time; the bytes written, and whether all were.
unfoldable pub write_bytes : (ℕ → Bool) → ℕ → List ℕ → List ℕ × Bool
write_bytes writes i [] = ([], true)
write_bytes writes i (b ∷ bs) =
    let (rest, all) = write_bytes writes (suc i) bs in
    if writes i then (b ∷ rest, all) else ([], false)

-- The packet: length, eight bytes from `protocol.c_str()` on, type, object. `slack` is the memory
-- behind the NUL of the string.
unfoldable pub packet : List ℕ → List ℕ → ℤ → Datagram → Option (List ℕ)
unfolding Datagram.size
packet protocol slack type d = do
  version ← read_memory 8 (protocol ++ 0 ∷ slack)
  object ← object_bytes d
  some (int_bytes (to_int (u32 (Datagram.size d))) ++ version ++ int_bytes type ++ object)

-- After the write loop: a write that failed closes the connection.
unfoldable pub finish_send : (ℕ → Bool) → ℕ → Bool → Link → List ℕ × Bool → Option Link
unfolding close
finish_send shutdown fuel own_thread l (written, true) =
    some (record l { written = l.written ++ written })
finish_send shutdown fuel own_thread l (written, false) =
    close shutdown fuel own_thread (record l { written = l.written ++ written })

-- A type that is not found sends nothing.
unfoldable pub send_typed :
    (ℕ → Bool) → (ℕ → Bool) → ℕ → Bool → List ℕ → Datagram → List ℕ → Link → Result ℤ → Option Link
unfolding packet write_bytes finish_send
send_typed writes shutdown fuel own_thread slack d protocol l (throws e) = some l
send_typed writes shutdown fuel own_thread slack d protocol l (ok type) = do
  bytes ← packet protocol slack type d
  finish_send shutdown fuel own_thread l (write_bytes writes 0 bytes)

-- `sendAnswer`. A protocol of more than eight bytes sends nothing.
unfoldable pub send_answer :
    (ℕ → Bool) → (ℕ → Bool) → ℕ → Bool → List ℕ → Datagram → Factory → Link → Option Link
unfolding Datagram.type send_typed
send_answer writes shutdown fuel own_thread slack d f l =
    if ltb 8 (length f.protocol)
    then some l
    else send_typed writes shutdown fuel own_thread slack d f.protocol l (Datagram.type d f)

-- `send`: only on a connection that is online, and `close(false)` where `sendAnswer` has
-- `close(true)`.
unfoldable pub send : (ℕ → Bool) → (ℕ → Bool) → ℕ → List ℕ → Datagram → Factory → Link → Option Link
unfolding send_answer
send writes shutdown fuel slack d f l =
    if l.online then send_answer writes shutdown fuel false slack d f l else some l
