-- ===== src/Wire/Receiving.antt =====
-- `TCPConnectionSecurity::receiveTransfThread` and `receiveThread` of
-- conexion/source/TCPConnectionSecurity.cpp. What `SSL_read` gives is a parameter, the list of its
-- answers; where the list ends, the thread waits.
use pxc_prop_strikes_back.Base.{
  ℕ, zero, suc, ℤ, pos, negsuc, List, [], ◌∷◌, Option, none, some, ◌>>=◌, if◌then◌else◌, ◌==◌, take,
  drop, on_found,
}
use pxc_prop_strikes_back.Wire.Bytes.{bytes_int}
use pxc_prop_strikes_back.Wire.Factory.{
  Factory, Result, ok, throws, Failure, Creator, set_protocol, creator,
}
use pxc_prop_strikes_back.Wire.Datagram.{create}

-- An answer of `SSL_read`: a byte, the end of the connection, or another error.
pub data Read : Type 0 where
  byte : ℕ → Read
  zero_return : Read
  syscall : Read
  other_error : Read

-- `got` has the bytes and what is still to be read.
pub data Reading : Type 0 where
  got : List ℕ → List Read → Reading
  ends : Reading
  waits : Reading

unfoldable pub add_byte : ℕ → Reading → Reading
add_byte b (got bs rest) = got (b ∷ bs) rest
add_byte b ends = ends
add_byte b waits = waits

-- The read loop: every error ends it.
unfoldable pub read_bytes : ℕ → List Read → Reading
unfolding add_byte
read_bytes zero rs = got [] rs
read_bytes (suc n) [] = waits
read_bytes (suc n) (byte b ∷ rs) = add_byte b (read_bytes n rs)
read_bytes (suc n) (r ∷ rs) = ends

-- `std::string(protocol)` of the eight bytes: without a NUL among them it reads on behind them.
unfoldable pub c_string : List ℕ → Option (List ℕ)
c_string [] = none
c_string (b ∷ bs) =
    let rest = c_string bs in if b == 0 then some [] else (rest >>= λ s. some (b ∷ s))

-- What one call does. `executes` is the instruction that is executed or given to the callback, with
-- the bytes of its fields; `rejects` is the exception, `closes` the call of `close(true)`.
pub data Outcome : Type 0 where
  executes : Creator → List ℕ → Factory → List Read → Outcome
  rejects : Failure → Factory → List Read → Outcome
  closes : Factory → Outcome
  blocked : Outcome
  faults : Outcome

abbrev pub execute_object : List ℕ → Creator → Factory → Reading → Outcome
execute_object beyond c f waits = blocked
execute_object beyond c f ends = closes f
execute_object beyond c f (got bytes rest) =
    on_found (create c bytes beyond) faults λ fields. executes c fields f rest

-- A negative size is a fault: the loop would not end, and the buffer would have no size.
unfoldable pub receive_object : List ℕ → ℤ → Creator → Factory → List Read → Outcome
unfolding read_bytes create
receive_object beyond (negsuc n) c f rs = faults
receive_object beyond (pos size) c f rs = execute_object beyond c f (read_bytes size rs)

abbrev pub receive_of : List ℕ → ℤ → Factory → List Read → Result Creator → Outcome
receive_of beyond size f rs (throws e) = rejects e f rs
receive_of beyond size f rs (ok c) = receive_object beyond size c f rs

abbrev pub receive_type : List ℕ → ℤ → ℤ → List Read → Factory × Option Failure → Outcome
receive_type beyond size type rs (f, some e) = rejects e f rs
receive_type beyond size type rs (f, none) = receive_of beyond size f rs (creator type f)

unfoldable pub receive_header : List ℕ → List ℕ → Factory → List Read → Outcome
unfolding c_string receive_object
receive_header beyond header f rs = on_found (c_string (take 8 (drop 4 header))) faults λ version.
    receive_type beyond (bytes_int (take 4 header)) (bytes_int (take 4 (drop 12 header))) rs
      (set_protocol version f)

abbrev pub receive_rest : List ℕ → Factory → Reading → Outcome
receive_rest beyond f waits = blocked
receive_rest beyond f ends = closes f
receive_rest beyond f (got header rest) = receive_header beyond header f rest

-- One instruction; `beyond` is the memory behind the buffer of the object.
unfoldable pub receive_transferable : List ℕ → Factory → List Read → Outcome
unfolding read_bytes receive_header
receive_transferable beyond f rs = receive_rest beyond f (read_bytes 16 rs)

-- The loop of `receiveThread`, for so many instructions: an exception is printed and the loop goes
-- on with what is still to be read. The result are the instructions that were executed.
unfoldable pub receive_thread : ℕ → List ℕ → Factory → List Read → List (Creator × List ℕ)
unfolding receive_transferable
receive_thread zero beyond f rs = []
receive_thread (suc n) beyond f rs = elim (receive_transferable beyond f rs) [
  | executes c fields f' rest ↦ (c, fields) ∷ receive_thread n beyond f' rest
  | rejects e f' rest ↦ receive_thread n beyond f' rest
  | closes f' ↦ []
  | blocked ↦ []
  | faults ↦ []
]
