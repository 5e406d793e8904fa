-- ===== src/Wire/Examples.antt =====
-- The theorems on datagrams at concrete states.
use pxc_prop_strikes_back.Base.{
  ℕ, ◌≡◌, refl, ℤ, pos, true, false, List, [], ◌∷◌, ◌++◌, none, some, map, on_found, arith,
  replicate, find, put, insert, int_key, bytes_key,
}
use pxc_prop_strikes_back.Wire.Factory.{
  Factory, Profile, ok, throws, Creator, set_protocol, type_id, creator, insert_creators,
  insert_ids, no_protocol, creator_not_found, type_not_found,
}
use pxc_prop_strikes_back.Wire.Datagram
use pxc_prop_strikes_back.Wire.Datagram.{Datagram}
use pxc_prop_strikes_back.Wire.Sending.{Link, send_answer}
use pxc_prop_strikes_back.Wire.Receiving.{
  Read, byte, receive_thread, executes, receive_transferable,
}
use pxc_prop_strikes_back.Wire.RoundTrip.{send_answer_received}
use pxc_prop_strikes_back.Wire.Stream.{send_all, send_all_received}
use pxc_prop_strikes_back.Wire.Agreement.{set_protocol_lem}

-- "0.1a"
abbrev version : List ℕ
version = 48 ∷ 46 ∷ 49 ∷ 97 ∷ []

-- Type 50 under the name "N", with two bytes of fields.
abbrev news : Creator
news = record { name = 78 ∷ []; type_size = 2 }

abbrev profile : Profile
profile = record { creators = (pos 50, news) ∷ []; creator_ids = (78 ∷ [], pos 50) ∷ [] }

abbrev empty_factory : Factory
empty_factory = record {
  profile = some profile;
  protocol = no_protocol;
  creators = [];
  sending = [];
}

abbrev ready : Factory
ready = record {
  profile = some profile;
  protocol = version;
  creators = (pos 50, news) ∷ [];
  sending = (78 ∷ [], pos 50) ∷ [];
}

abbrev open_link : Link
open_link = record {
  online = true;
  ssl = true;
  on_close = true;
  listening = false;
  closed_calls = 0;
  written = [];
}

abbrev datagram : Datagram
datagram = record { name = 78 ∷ []; header_size = 3; fields = 5 ∷ 6 ∷ []; beyond = 9 ∷ 9 ∷ 9 ∷ [] }

send_answer_received_example :
    (t : Link) × (sent : List ℕ) × (send_answer
        (λ n. true)
        (λ n. true)
        1
        false
        (replicate 7 0)
        datagram
        ready
        open_link
      ≡ some t)
    × (t.written ≡ open_link.written ++ sent)
    × ((rest : List Read)
        → receive_transferable [] empty_factory (map byte sent ++ rest)
          ≡ executes news datagram.fields ready rest)
unfolding Datagram.type Datagram.size type_id find set_protocol creator insert_creators insert_ids
    insert put
send_answer_received_example =
    send_answer_received (λ n. true) (λ n. true) 1 false (replicate 7 0) [] datagram (pos 50) ready
      empty_factory ready news open_link (λ n. refl) refl (ground arith)
      (ground arith, (ground arith, (ground arith, (ground arith, tt)))) (ground arith)
      (ground arith) (ground arith) (ground arith) refl refl refl

set_protocol_lem_example :
    (t : Factory) × (set_protocol version empty_factory ≡ (t, none))
    × (t.protocol ≡ version)
    × ((k : ℤ) → creator k t ≡ on_found (find k profile.creators) (throws creator_not_found) ok)
    × ((name : List ℕ)
        → type_id name t ≡ on_found (find name profile.creator_ids) (throws type_not_found) ok)
set_protocol_lem_example = set_protocol_lem version empty_factory profile refl (ground arith)

abbrev second_datagram : Datagram
second_datagram = record datagram { fields = 7 ∷ 8 ∷ [] }

send_all_received_example :
    (t : Link) × (sent : List ℕ) × (send_all
        (λ n. true)
        (λ n. true)
        1
        false
        (replicate 7 0)
        ready
        ((datagram, news) ∷ (second_datagram, news) ∷ [])
        open_link
      ≡ some t)
    × (t.written ≡ open_link.written ++ sent)
    × (receive_thread 2 [] ready (map byte sent ++ [])
        ≡ (news, 5 ∷ 6 ∷ []) ∷ (news, 7 ∷ 8 ∷ []) ∷ [])
unfolding Datagram.type Datagram.size type_id find set_protocol creator insert_creators insert_ids
    insert put
send_all_received_example =
    send_all_received (λ n. true) (λ n. true) 1 false (replicate 7 0) ready [] ready
      ((datagram, news) ∷ (second_datagram, news) ∷ []) open_link [] (λ n. refl) (ground arith)
      (ground arith, (ground arith, (ground arith, (ground arith, tt)))) (ground arith) refl
      (
        (
          pos 50,
          record {
            typed = refl;
            room = ground arith;
            small = ground arith;
            int_type = ground arith;
            made = refl;
            fits = refl;
          },
        ),
        (
          (
            pos 50,
            record {
              typed = refl;
              room = ground arith;
              small = ground arith;
              int_type = ground arith;
              made = refl;
              fits = refl;
            },
          ),
          tt,
        ),
      )
