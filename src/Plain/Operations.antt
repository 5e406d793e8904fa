-- ===== src/Plain/Operations.antt =====
-- The calls of a plain connection, in any order (conexion/source/TCPConnection.cpp).
use pxc_prop_strikes_back.Base.{ℕ, Bool, true, false, List, [], ◌∷◌, Option, some, ◌>>=◌}
use pxc_prop_strikes_back.Wire.Factory.{Factory}
use pxc_prop_strikes_back.Wire.Datagram.{Datagram}
use pxc_prop_strikes_back.Plain.Connection.{
  TcpConnection, Dial, connect, close, Write, send, send_answer,
}
use pxc_prop_strikes_back.Plain.Reading.{Read, receive_thread}

-- The calls of a connection.
pub data Operation : Type 0 where
  connects : Option (List Dial) → Operation
  closes_it : Operation
  sends : (answer : Bool) → List Write → List ℕ → Datagram → Factory → Operation
  listens : ℕ → List ℕ → Factory → List Read → Operation

unfoldable pub perform : Operation → TcpConnection → Option TcpConnection
unfolding connect close send send_answer receive_thread
perform (connects answers) c = do r ← connect answers c; some (r.0)
perform closes_it c = some (close false c)
perform (sends true ws slack d f) c = send_answer ws slack d f c
perform (sends false ws slack d f) c = send ws slack d f c
perform (listens n beyond f rs) c = some ((receive_thread n beyond f rs c).1)

unfoldable pub perform_all : List Operation → TcpConnection → Option TcpConnection
unfolding perform
perform_all [] c = some c
perform_all (o ∷ os) c = do d ← perform o c; perform_all os d
