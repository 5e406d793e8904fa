-- ===== src/Plain/RoundTrip.antt =====
-- What one side sends over a plain connection, the other receives
-- (conexion/source/TCPConnection.cpp).
use pxc_prop_strikes_back.Base.{
  ℕ, zero, suc, ◌<◌, ◌≤◌, ◌≡◌, refl, ◌∙◌, ℤ, Bool, true, false, List, ◌∷◌, ◌++◌, none, some, ◌==◌,
  ==_iff, ltb, length, take, drop, arith, replicate, length-append,
}
use pxc_prop_strikes_back.Wire.Bytes.{int_bytes, bytes_int-int_bytes, IsInt}
use pxc_prop_strikes_back.Wire.Factory.{Factory, ok, Creator, set_protocol, creator}
use pxc_prop_strikes_back.Wire.Datagram
use pxc_prop_strikes_back.Wire.Datagram.{Datagram, object_bytes, create}
use pxc_prop_strikes_back.Wire.Receiving.{c_string}
use pxc_prop_strikes_back.Wire.RoundTrip.{
  AllChars, take_exactly, drop_exactly, version_bytes, object_bytes_lem, created,
}
use pxc_prop_strikes_back.Plain.Size.{size_bytes, bytes_size-size_bytes}
use pxc_prop_strikes_back.Plain.Connection.{
  TcpConnection, Write, full, retry, write_loop, packet, send_typed, send_with,
}
use pxc_prop_strikes_back.Plain.Reading.{
  Read, gives, got, read_whole, executes, receive_object, receive_header, receive_transferable,
}

write_loop-retry :
    (own_thread : Bool) (n : ℕ) (ws : List Write) (bytes : List ℕ) (c : TcpConnection)
    → c.online ≡ true
    → write_loop own_thread (replicate n retry ++ full ∷ ws) bytes c
      ≡ some (record c { written = c.written ++ bytes })
unfolding write_loop
write_loop-retry own_thread zero ws bytes c on = rw on refl
write_loop-retry own_thread (suc n) ws bytes c on =
    simp (on, write_loop-retry own_thread n ws bytes c on)

read_whole-whole :
    (n : ℕ) (bs : List ℕ) (rs : List Read)
    → length bs ≡ n
    → read_whole n (gives bs ∷ rs) ≡ got bs rs
unfolding read_whole
read_whole-whole n bs rs e =
    let whole : (length bs == n) ≡ true = (==_iff (length bs) n).1 e in simp whole

-- A header and its parts.
module _ (size : ℕ) (type : ℤ) (v : List ℕ) (h : length v ≡ 8) where
  abbrev header : List ℕ
  header = size_bytes size ++ v ++ int_bytes type

  length-header : length header ≡ 20
  unfolding size_bytes int_bytes
  length-header = omega (arith, length-append v (int_bytes type))

  header_size : take 8 header ≡ size_bytes size
  unfolding size_bytes int_bytes
  header_size = refl

  header_version : take 8 (drop 8 header) ≡ v
  unfolding size_bytes int_bytes
  header_version = take_exactly 8 v (int_bytes type) h

  header-type : take 4 (drop 16 header) ≡ int_bytes type
  unfolding size_bytes int_bytes
  header-type = rw (drop_exactly 8 v (int_bytes type) h) refl

  -- What a receiver that accepts the header does with what follows it.
  received :
      (beyond protocol : List ℕ) (f f' : Factory) (c : Creator) (rest : List Read)
      → size < 18446744073709551616
      → IsInt type
      → c_string v ≡ some protocol
      → set_protocol protocol f ≡ (f', none)
      → creator type f' ≡ ok c
      → receive_transferable beyond f (gives header ∷ rest) ≡ receive_object beyond size c f' rest
  unfolding receive_transferable receive_header
  received beyond protocol f f' c rest small int_type version accepted made =
      rw
        (
          read_whole-whole 20 header rest length-header,
          header_version,
          version,
          accepted,
          header-type,
          bytes_int-int_bytes type int_type,
          made,
          header_size,
          bytes_size-size_bytes size small,
        )
        refl

object_read :
    (beyond bytes fields : List ℕ) (n : ℕ) (c : Creator) (f : Factory) (rest : List Read)
    → n < 9223372036854775808
    → length bytes ≡ n
    → create c bytes beyond ≡ some fields
    → receive_object beyond n c f (gives bytes ∷ rest) ≡ executes c fields f rest
unfolding receive_object
object_read beyond bytes fields n c f rest small e made =
    let fits : ltb n 9223372036854775808 ≡ true = ground arith in
    rw (fits, read_whole-whole n bytes rest e, made) refl

-- A packet over a plain connection that is online: BIO asks for any number of further tries and then
-- writes it whole. Under the conditions that also a secure connection needs for its packet, the
-- object of less than half of the memory, a receiver to which header and object come whole executes
-- the type that was sent with its fields, and what follows is left to be read.
pub send_received :
    (own_thread : Bool) (n : ℕ) (ws : List Write) (slack beyond : List ℕ) (d : Datagram) (k : ℤ)
    (s f f' : Factory) (m : Creator) (c : TcpConnection)
    → c.online ≡ true
    → Datagram.type d s ≡ ok k
    → length s.protocol < 8
    → AllChars s.protocol
    → 7 ≤ length slack
    → d.header_size ≤ length d.beyond
    → Datagram.size d < 9223372036854775808
    → IsInt k
    → set_protocol s.protocol f ≡ (f', none)
    → creator k f' ≡ ok m
    → m.type_size ≡ length d.fields
    → (t : TcpConnection) × (head object : List ℕ) × (send_with own_thread
          (replicate n retry ++ full ∷ ws)
          slack
          d
          s
          c
        ≡ some t)
      × (t.written ≡ c.written ++ (head ++ object))
      × ((rest : List Read)
          → receive_transferable beyond f (gives head ∷ gives object ∷ rest)
            ≡ executes m d.fields f' rest)
unfolding send_with send_typed packet
send_received own_thread n ws slack beyond d k s f f' m c on typed short chars behind room small
      int_type accepted made fits =
    let (v, version, eight, back) = version_bytes s.protocol slack short behind in
    let (tail, object, whole) = object_bytes_lem d room in
    let size : ℕ = Datagram.size d in
    let not_long : ltb 8 (length s.protocol) ≡ false = ground arith in
    let bytes : List ℕ = header size k v eight ++ (d.fields ++ tail) in
    (
      record c { written = c.written ++ bytes },
      header size k v eight,
      d.fields ++ tail,
      rw (not_long, typed, version, object) (write_loop-retry own_thread n ws bytes c on),
      refl,
      λ rest.
          received size k v eight beyond s.protocol f f' m (gives (d.fields ++ tail) ∷ rest)
            (omega arith) int_type (back chars) accepted made
          ∙ object_read beyond (d.fields ++ tail) d.fields size m f' rest small whole
              (created d.fields tail beyond m fits),
    )
