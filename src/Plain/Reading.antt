-- ===== src/Plain/Reading.antt =====
-- `TCPConnection::receiveTransfThread` of conexion/source/TCPConnection.cpp. What `BIO_read` gives
-- is a parameter, the list of its answers; where the list ends, the thread waits.
use pxc_prop_strikes_back.Base.{
  ℕ, zero, suc, ℤ, Bool, true, false, List, [], ◌∷◌, Option, none, some, if◌then◌else◌, ◌==◌, ltb,
  take, drop, length, on_found,
}
use pxc_prop_strikes_back.Wire.Bytes.{bytes_int}
use pxc_prop_strikes_back.Wire.Factory.{
  Factory, Result, ok, throws, Failure, Creator, set_protocol, creator,
}
use pxc_prop_strikes_back.Wire.Datagram.{create}
use pxc_prop_strikes_back.Wire.Receiving.{c_string}
use pxc_prop_strikes_back.Plain.Size.{bytes_size}
use pxc_prop_strikes_back.Plain.Connection.{TcpConnection, close}

-- An answer of `BIO_read`: some bytes, none at the end of the stream, or a negative number; or the
-- link is offline and nothing is read.
pub data Read : Type 0 where
  gives : List ℕ → Read
  negative : Read
  offline : Read

pub data Reading : Type 0 where
  got : List ℕ → List Read → Reading
  ends : Reading
  waits : Reading

-- The read loop. It reads again from the start of the buffer after an answer that is neither whole
-- nor 0: `r` is unsigned, so it is never less than 0.
unfoldable pub read_whole : ℕ → List Read → Reading
read_whole n [] = waits
read_whole n (gives bs ∷ rs) =
    let rest = read_whole n rs in
    if length bs == n then got bs rs else if length bs == 0 then ends else rest
read_whole n (negative ∷ rs) = read_whole n rs
read_whole n (offline ∷ rs) = if n == 0 then got [] rs else ends

-- What one call does, as with SSL.
pub data Outcome : Type 0 where
  executes : Creator → List ℕ → Factory → List Read → Outcome
  rejects : Failure → Factory → List Read → Outcome
  closes : Factory → Outcome
  blocked : Outcome
  faults : Outcome

abbrev pub execute_object : List ℕ → Creator → Factory → Reading → Outcome
execute_object beyond c f waits = blocked
execute_object beyond c f ends = closes f
execute_object beyond c f (got bytes rest) =
    on_found (create c bytes beyond) faults λ fields. executes c fields f rest

-- An array of half of the memory or more is a fault.
unfoldable pub receive_object : List ℕ → ℕ → Creator → Factory → List Read → Outcome
unfolding read_whole create
receive_object beyond size c f rs =
    if ltb size 9223372036854775808 then execute_object beyond c f (read_whole size rs) else faults

abbrev pub receive_of : List ℕ → ℕ → Factory → List Read → Result Creator → Outcome
receive_of beyond size f rs (throws e) = rejects e f rs
receive_of beyond size f rs (ok c) = receive_object beyond size c f rs

abbrev pub receive_type : List ℕ → ℕ → ℤ → List Read → Factory × Option Failure → Outcome
receive_type beyond size type rs (f, some e) = rejects e f rs
receive_type beyond size type rs (f, none) = receive_of beyond size f rs (creator type f)

unfoldable pub receive_header : List ℕ → List ℕ → Factory → List Read → Outcome
unfolding c_string receive_object bytes_size
receive_header beyond header f rs = on_found (c_string (take 8 (drop 8 header))) faults λ version.
    receive_type beyond (bytes_size (take 8 header)) (bytes_int (take 4 (drop 16 header))) rs
      (set_protocol version f)

abbrev pub receive_rest : List ℕ → Factory → Reading → Outcome
receive_rest beyond f waits = blocked
receive_rest beyond f ends = closes f
receive_rest beyond f (got header rest) = receive_header beyond header f rest

-- One instruction; `beyond` is the memory behind the buffer of the object.
unfoldable pub receive_transferable : List ℕ → Factory → List Read → Outcome
unfolding read_whole receive_header
receive_transferable beyond f rs = receive_rest beyond f (read_whole 20 rs)

abbrev pub executed_first :
    Creator × List ℕ
    → List (Creator × List ℕ) × TcpConnection
    → List (Creator × List ℕ) × TcpConnection
executed_first k (ks, c) = (k ∷ ks, c)

-- The loop of `receiveThread` while the link is online, for so many instructions: those that were
-- executed, and the connection that is left.
unfoldable pub receive_thread :
    ℕ → List ℕ → Factory → List Read → TcpConnection → List (Creator × List ℕ) × TcpConnection
unfolding receive_transferable close
receive_thread zero beyond f rs c = ([], c)
receive_thread (suc n) beyond f rs c = elim c.online [
  | false ↦ ([], c)
  | true ↦ elim (receive_transferable beyond f rs) [
    | executes k fields f' rest ↦ executed_first (k, fields) (receive_thread n beyond f' rest c)
    | rejects e f' rest ↦ receive_thread n beyond f' rest c
    | closes f' ↦ ([], close true c)
    | blocked ↦ ([], c)
    | faults ↦ ([], c)
  ]
]

-- A round of the thread, by whether the link is online and what the call does.
unfoldable pub next_call :
    ℕ → List ℕ → TcpConnection → Bool → Outcome → List (Creator × List ℕ) × TcpConnection
unfolding receive_thread close
next_call n beyond c online o = elim online [
  | false ↦ ([], c)
  | true ↦ elim o [
    | executes k fields f' rest ↦ executed_first (k, fields) (receive_thread n beyond f' rest c)
    | rejects e f' rest ↦ receive_thread n beyond f' rest c
    | closes f' ↦ ([], close true c)
    | blocked ↦ ([], c)
    | faults ↦ ([], c)
  ]
]
