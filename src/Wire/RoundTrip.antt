-- ===== src/Wire/RoundTrip.antt =====
-- What one side sends, the other receives.
use pxc_prop_strikes_back.Base.{
  ℕ, zero, suc, ◌+◌, ◌-◌, ◌<◌, ◌≤◌, ◌≡◌, ◌≢◌, refl, sym, ap, ◌∙◌, ℤ, pos, Bool, true, false, List,
  [], ◌∷◌, ◌++◌, none, some, map, ◌==◌, ==_iff, leb, ltb, to_int, u32, length, take, drop, arith,
  take-append, drop-append, length-append, append_assoc, append-nil, length-take, take-append_more,
}
use pxc_prop_strikes_back.Wire.Bytes.{
  int_bytes, bytes_int, bytes_int-int_bytes, length-int_bytes, IsInt, read_memory,
  read_memory-append,
}
use pxc_prop_strikes_back.Wire.Factory.{Factory, ok, Creator, set_protocol, creator}
use pxc_prop_strikes_back.Wire.Datagram
use pxc_prop_strikes_back.Wire.Datagram.{Datagram, object_bytes, create}
use pxc_prop_strikes_back.Wire.Sending.{
  Link, write_bytes, packet, send_answer, send_typed, finish_send,
}
use pxc_prop_strikes_back.Wire.Receiving.{
  Read, byte, got, read_bytes, c_string, executes, receive_object, receive_header,
  receive_transferable,
}

-- No NUL among the characters.
abbrev pub AllChars : List ℕ → Type 0
AllChars [] = Unit {0}
AllChars (b ∷ bs) = (b ≢ 0) × AllChars bs

write_bytes_all :
    (writes : ℕ → Bool)
    → ((n : ℕ) → writes n ≡ true)
    → (i : ℕ) (bs : List ℕ) → write_bytes writes i bs ≡ (bs, true)
unfolding write_bytes
write_bytes_all writes all i [] = refl
write_bytes_all writes all i (b ∷ bs) = rw (all i, write_bytes_all writes all (suc i) bs) refl

read_bytes-append :
    (n : ℕ) (xs ys : List ℕ) (rs : List Read)
    → length xs ≡ n
    → read_bytes n (map byte (xs ++ ys) ++ rs) ≡ got xs (map byte ys ++ rs)
unfolding read_bytes
read_bytes-append zero [] ys rs h = refl
read_bytes-append zero (x ∷ xs) ys rs h = absurd (omega arith)
read_bytes-append (suc n) [] ys rs h = absurd (omega arith)
read_bytes-append (suc n) (x ∷ xs) ys rs h = rw (read_bytes-append n xs ys rs (omega arith)) refl

c_string-append : (s tail : List ℕ) → AllChars s → c_string (s ++ 0 ∷ tail) ≡ some s
unfolding c_string
c_string-append [] tail h = refl
c_string-append (b ∷ bs) tail (ne, h) =
    let not_nul : (b == 0) ≡ false = ground (arith, ==_iff b 0) in
    rw (not_nul, c_string-append bs tail h) refl

pub take_exactly : (n : ℕ) (xs ys : List ℕ) → length xs ≡ n → take n (xs ++ ys) ≡ xs
take_exactly n xs ys h = rw (← h) (take-append xs ys)

pub drop_exactly : (n : ℕ) (xs ys : List ℕ) → length xs ≡ n → drop n (xs ++ ys) ≡ ys
drop_exactly n xs ys h = rw (← h) (drop-append xs ys)

-- The eight bytes of the version, for a protocol that is shorter than that.
pub version_bytes :
    (protocol slack : List ℕ)
    → length protocol < 8
    → 7 ≤ length slack
    → (v : List ℕ) × (read_memory 8 (protocol ++ 0 ∷ slack) ≡ some v)
      × (length v ≡ 8)
      × (AllChars protocol → c_string v ≡ some protocol)
unfolding read_memory
version_bytes protocol slack short behind =
    let left : ℕ = 7 - length protocol in
    let tail : List ℕ = take left slack in
    let fits : leb 8 (length (protocol ++ 0 ∷ slack)) ≡ true =
      ground (arith, length-append protocol (0 ∷ slack)) in
    let size : length tail ≡ left = length-take left slack (omega arith) in
    (
      protocol ++ 0 ∷ tail,
      rw fits (ap some (take-append_more 8 (suc left) protocol (0 ∷ slack) (omega arith))),
      omega (arith, length-append protocol (0 ∷ tail), size),
      λ chars. c_string-append protocol tail chars,
    )

-- The bytes of an object in memory: its fields, and as many bytes behind it as its header has.
pub object_bytes_lem :
    (d : Datagram)
    → d.header_size ≤ length d.beyond
    → (tail : List ℕ) × (object_bytes d ≡ some (d.fields ++ tail))
      × (length (d.fields ++ tail) ≡ Datagram.size d)
unfolding object_bytes read_memory Datagram.size
object_bytes_lem d h =
    let size : ℕ = d.header_size + length d.fields in
    let fits : leb size (length (d.fields ++ d.beyond)) ≡ true =
      ground (arith, length-append d.fields d.beyond) in
    let tail : List ℕ = take d.header_size d.beyond in
    (
      tail,
      rw fits (ap some (take-append_more size d.header_size d.fields d.beyond (omega arith))),
      omega (arith, length-append d.fields tail, length-take d.header_size d.beyond h),
    )

header_read :
    (beyond : List ℕ) (f : Factory) (rs : List Read) (h : List ℕ) (rest : List Read)
    → read_bytes 16 rs ≡ got h rest
    → receive_transferable beyond f rs ≡ receive_header beyond h f rest
unfolding receive_transferable
header_read beyond f rs h rest e = rw e refl

accepted_header :
    (beyond h protocol : List ℕ) (f f' : Factory) (c : Creator) (size type : ℤ) (rest : List Read)
    → bytes_int (take 4 h) ≡ size
    → c_string (take 8 (drop 4 h)) ≡ some protocol
    → bytes_int (take 4 (drop 12 h)) ≡ type
    → set_protocol protocol f ≡ (f', none)
    → creator type f' ≡ ok c
    → receive_header beyond h f rest ≡ receive_object beyond size c f' rest
unfolding receive_header
accepted_header beyond h protocol f f' c size type rest a b d accepted made =
    rw (a, b, d, accepted, made) refl

object_read :
    (beyond bytes fields : List ℕ) (n : ℕ) (c : Creator) (f : Factory) (rs rest : List Read)
    → read_bytes n rs ≡ got bytes rest
    → create c bytes beyond ≡ some fields
    → receive_object beyond (pos n) c f rs ≡ executes c fields f rest
unfolding receive_object
object_read beyond bytes fields n c f rs rest e made = rw (e, made) refl

-- A header and its parts.
module _ (size type : ℤ) (v : List ℕ) (h : length v ≡ 8) where
  abbrev header : List ℕ
  header = int_bytes size ++ v ++ int_bytes type

  length-header : length header ≡ 16
  unfolding int_bytes
  length-header = omega (arith, length-append v (int_bytes type), length-int_bytes type)

  header_size : take 4 header ≡ int_bytes size
  unfolding int_bytes
  header_size = refl

  header_version : take 8 (drop 4 header) ≡ v
  unfolding int_bytes
  header_version = take_exactly 8 v (int_bytes type) h

  header-type : take 4 (drop 12 header) ≡ int_bytes type
  unfolding int_bytes
  header-type = rw (drop_exactly 8 v (int_bytes type) h) refl

  -- What a receiver that accepts the header does with the bytes behind it.
  received :
      (obj beyond protocol : List ℕ) (f f' : Factory) (c : Creator) (rest : List Read)
      → IsInt size
      → IsInt type
      → c_string v ≡ some protocol
      → set_protocol protocol f ≡ (f', none)
      → creator type f' ≡ ok c
      → receive_transferable beyond f
          (map byte (int_bytes size ++ v ++ int_bytes type ++ obj) ++ rest)
        ≡ receive_object beyond size c f' (map byte obj ++ rest)
  unfolding receive_transferable receive_header
  received obj beyond protocol f f' c rest a b version accepted made =
      (header_read beyond f (map byte (header ++ obj) ++ rest) header (map byte obj ++ rest)
          (read_bytes-append 16 header obj rest length-header)
        ∙ accepted_header beyond header protocol f f' c size type (map byte obj ++ rest)
            (rw header_size (bytes_int-int_bytes size a)) (rw header_version version)
            (rw header-type (bytes_int-int_bytes type b)) accepted made)

all_read :
    (n : ℕ) (xs : List ℕ) (rest : List Read)
    → length xs ≡ n
    → read_bytes n (map byte xs ++ rest) ≡ got xs rest
all_read n xs rest h =
    ap (λ l. read_bytes n (map byte l ++ rest)) (sym (append-nil xs))
    ∙ read_bytes-append n xs [] rest h

pub created :
    (fields tail beyond : List ℕ) (c : Creator)
    → c.type_size ≡ length fields
    → create c (fields ++ tail) beyond ≡ some fields
unfolding create
created fields tail beyond c h =
    ap (λ l. read_memory c.type_size l) (append_assoc fields tail beyond)
    ∙ read_memory-append fields (tail ++ beyond) c.type_size (sym h)

-- What one side sends the other receives: if every write writes its byte, the protocol is shorter
-- than eight characters, none of them a NUL, memory lies behind the protocol's string and behind
-- the object for as long as it is read, sizes and type fit in an int, and the receiver accepts the
-- protocol and has a creator of the type and of the size, then the packet that is sent is received
-- as that type with the fields that were sent, and what follows it is left to be read.
pub send_answer_received :
    (writes shutdown : ℕ → Bool) (fuel : ℕ) (own_thread : Bool) (slack beyond : List ℕ)
    (d : Datagram) (k : ℤ) (s f f' : Factory) (c : Creator) (l : Link)
    → ((n : ℕ) → writes n ≡ true)
    → Datagram.type d s ≡ ok k
    → length s.protocol < 8
    → AllChars s.protocol
    → 7 ≤ length slack
    → d.header_size ≤ length d.beyond
    → Datagram.size d < 2147483648
    → IsInt k
    → set_protocol s.protocol f ≡ (f', none)
    → creator k f' ≡ ok c
    → c.type_size ≡ length d.fields
    → (t : Link) × (sent : List ℕ) × (send_answer writes shutdown fuel own_thread slack d s l
        ≡ some t)
      × (t.written ≡ l.written ++ sent)
      × ((rest : List Read)
          → receive_transferable beyond f (map byte sent ++ rest) ≡ executes c d.fields f' rest)
unfolding send_answer send_typed finish_send packet
send_answer_received writes shutdown fuel own_thread slack beyond d k s f f' c l all typed short
      chars behind room small int_type accepted made fits =
    let (v, version, eight, back) = version_bytes s.protocol slack short behind in
    let (tail, object, whole) = object_bytes_lem d room in
    let size : ℕ = Datagram.size d in
    let as_int : to_int (u32 size) ≡ pos size = ground arith in
    let sent : List ℕ = int_bytes (pos size) ++ v ++ int_bytes k ++ (d.fields ++ tail) in
    let not_long : ltb 8 (length s.protocol) ≡ false = ground arith in
    (
      record l { written = l.written ++ sent },
      sent,
      rw (not_long, typed, version, object, as_int) (rw (write_bytes_all writes all 0 sent) refl),
      refl,
      λ rest.
          received (pos size) k v eight (d.fields ++ tail) beyond s.protocol f f' c rest small
            int_type (back chars) accepted made
          ∙ object_read beyond (d.fields ++ tail) d.fields size c f'
              (map byte (d.fields ++ tail) ++ rest) rest
              (all_read size (d.fields ++ tail) rest whole) (created d.fields tail beyond c fits),
    )
