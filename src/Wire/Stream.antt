-- ===== src/Wire/Stream.antt =====
-- Several packets on one connection: they are executed in the order in which they were sent.
use pxc_prop_strikes_back.Base.{
  ℕ, suc, ◌<◌, ◌≤◌, ◌≡◌, refl, sym, ap, ◌∙◌, ℤ, Bool, true, List, [], ◌∷◌, ◌++◌, Option, none, some,
  ◌>>=◌, map, length, append-nil, append_assoc,
}
use pxc_prop_strikes_back.Wire.Bytes.{IsInt}
use pxc_prop_strikes_back.Wire.Factory.{Factory, ok, Creator, set_protocol, creator}
use pxc_prop_strikes_back.Wire.Datagram
use pxc_prop_strikes_back.Wire.Datagram.{Datagram}
use pxc_prop_strikes_back.Wire.Sending.{Link, send_answer}
use pxc_prop_strikes_back.Wire.Receiving.{
  Read, byte, executes, receive_transferable, receive_thread,
}
use pxc_prop_strikes_back.Wire.RoundTrip.{AllChars, send_answer_received}

-- A datagram that the sender's factory knows as type `k` and the receiver's factory creates by `c`.
pub record IsSendable (s f : Factory) (d : Datagram) (k : ℤ) (c : Creator) : Type 0 where
  pub typed : Datagram.type d s ≡ ok k
  pub room : d.header_size ≤ length d.beyond
  pub small : Datagram.size d < 2147483648
  pub int_type : IsInt k
  pub made : creator k f ≡ ok c
  pub fits : c.type_size ≡ length d.fields

abbrev pub AllSendable : Factory → Factory → List (Datagram × Creator) → Type 0
AllSendable s f [] = Unit {0}
AllSendable s f ((d, c) ∷ ds) = ((k : ℤ) × IsSendable s f d k c) × AllSendable s f ds

map-append : (xs ys : List ℕ) → map byte (xs ++ ys) ≡ map byte xs ++ map byte ys
map-append [] ys = refl
map-append (x ∷ xs) ys = ap (λ l. byte x ∷ l) (map-append xs ys)

receive_thread_next :
    (n : ℕ) (beyond : List ℕ) (f f' : Factory) (rs rest : List Read) (c : Creator) (fields : List ℕ)
    → receive_transferable beyond f rs ≡ executes c fields f' rest
    → receive_thread (suc n) beyond f rs ≡ (c, fields) ∷ receive_thread n beyond f' rest
unfolding receive_thread
receive_thread_next n beyond f f' rs rest c fields e = rw (e, receive_thread) refl

-- The bytes of two packets, and what follows.
two_packets :
    (xs ys : List ℕ) (rest : List Read)
    → map byte (xs ++ ys) ++ rest ≡ map byte xs ++ (map byte ys ++ rest)
two_packets xs ys rest =
    ap (λ l. l ++ rest) (map-append xs ys) ∙ append_assoc (map byte xs) (map byte ys) rest

module _ (writes shutdown : ℕ → Bool) (fuel : ℕ) (own_thread : Bool) (slack : List ℕ)
    (s : Factory) where
  -- One `sendAnswer` after the other.
  abbrev pub send_all : List (Datagram × Creator) → Link → Option Link
  send_all [] l = some l
  send_all ((d, c) ∷ ds) l =
      send_answer writes shutdown fuel own_thread slack d s l >>= λ t. send_all ds t

  -- What one side sends in sequence the other executes in sequence: if every write writes its byte,
  -- the protocol is shorter than eight characters, none of them a NUL, and is the one that the
  -- receiver has set, with memory behind its string, and each datagram has a type and a creator on
  -- the two sides, of its size, with memory behind the object, then as many rounds of the receiving
  -- thread as there are datagrams execute their types with their fields, in their order, whatever
  -- follows.
  pub send_all_received :
      (beyond : List ℕ) (f : Factory) (ds : List (Datagram × Creator)) (l : Link) (rest : List Read)
      → ((n : ℕ) → writes n ≡ true)
      → length s.protocol < 8
      → AllChars s.protocol
      → 7 ≤ length slack
      → set_protocol s.protocol f ≡ (f, none)
      → AllSendable s f ds
      → (t : Link) × (sent : List ℕ) × (send_all ds l ≡ some t)
        × (t.written ≡ l.written ++ sent)
        × (receive_thread (length ds) beyond f (map byte sent ++ rest)
            ≡ map (λ x. (x.1, x.0.fields)) ds)
  unfolding receive_thread
  send_all_received beyond f [] l rest all short chars behind set sendable =
      (l, [], refl, sym (append-nil l.written), refl)
  send_all_received beyond f ((d, c) ∷ ds) l rest all short chars behind set ((k, q), sendable) =
      let (t, sent, e, w, first) =
        send_answer_received writes shutdown fuel own_thread slack beyond d k s f f c l all q.typed
          short chars behind q.room q.small q.int_type set q.made q.fits in
      let (u, later, e', w', received) =
        send_all_received beyond f ds t rest all short chars behind set sendable in
      (
        u,
        sent ++ later,
        rw e e',
        w' ∙ (ap (λ x. x ++ later) w ∙ append_assoc l.written sent later),
        ap (λ rs. receive_thread (suc (length ds)) beyond f rs) (two_packets sent later rest)
            ∙ (receive_thread_next (length ds) beyond f f
                  (map byte sent ++ (map byte later ++ rest)) (map byte later ++ rest) c d.fields
                  (first (map byte later ++ rest))
                ∙ ap (λ xs. (c, d.fields) ∷ xs) received),
      )
