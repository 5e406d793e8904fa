-- ===== src/Wire/Datagram.antt =====
-- conexion/include/Datagram.h: what is sent of an object, and what is made of received bytes.
use pxc_prop_strikes_back.Base.{ℕ, ◌+◌, ℤ, List, ◌++◌, Option, length}
use pxc_prop_strikes_back.Wire.Bytes.{read_memory}
use pxc_prop_strikes_back.Wire.Factory.{Factory, Result, Creator, type_id}

-- An object of type `T`: the name of its type, `sizeof(Datagram<T>)`, the bytes of the fields that
-- `T` adds, and what lies in memory behind the object.
pub record Datagram : Type 0 where
  pub name : List ℕ
  pub header_size : ℕ
  pub fields : List ℕ
  pub beyond : List ℕ

-- `sizeof(T)`
unfoldable pub size : Datagram → ℕ
size d = d.header_size + length d.fields

-- `size()` bytes from `transferableObject()` on, which is behind the header.
unfoldable pub object_bytes : Datagram → Option (List ℕ)
unfolding size
object_bytes d = read_memory (size d) (d.fields ++ d.beyond)

unfoldable pub type : Datagram → Factory → Result ℤ
type d f = type_id d.name f

-- `Creator::create`: the fields of the new object, copied from a buffer with memory behind it.
unfoldable pub create : Creator → List ℕ → List ℕ → Option (List ℕ)
create c buffer beyond = read_memory c.type_size (buffer ++ beyond)
