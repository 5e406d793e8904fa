-- ===== src/Plain/Examples.antt =====
-- The theorems on plain connections at concrete states.
use pxc_prop_strikes_back.Base.{
  ◌+◌, ◌==◌, ℕ, ◌≡◌, refl, pos, true, false, List, [], ◌∷◌, ◌++◌, some, arith, replicate, find, put,
  insert,
}
use pxc_prop_strikes_back.Wire.Factory.{
  Factory, Profile, Creator, set_protocol, type_id, creator, insert_creators, insert_ids,
  no_protocol,
}
use pxc_prop_strikes_back.Wire.Datagram
use pxc_prop_strikes_back.Wire.Datagram.{Datagram, object_bytes}
use pxc_prop_strikes_back.Wire.Bytes.{read_memory}
use pxc_prop_strikes_back.Plain.Connection.{
  TcpConnection, close, connected, again, refused, full, retry, short, send_with, packet,
}
use pxc_prop_strikes_back.Plain.Reading.{
  Read, gives, negative, offline, receive_thread, receive_transferable, executes,
}
use pxc_prop_strikes_back.Plain.Operations.{Operation, connects, closes_it, sends, perform_all}
use pxc_prop_strikes_back.Plain.RoundTrip.{send_received}
use pxc_prop_strikes_back.Plain.Parts.{receive_thread-parts}
use pxc_prop_strikes_back.Plain.Reported.{IsReported, perform_all-IsReported}

-- "0.1a"
abbrev version : List ℕ
version = 48 ∷ 46 ∷ 49 ∷ 97 ∷ []

abbrev news : Creator
news = record { name = 78 ∷ []; type_size = 2 }

abbrev profile : Profile
profile = record { creators = (pos 50, news) ∷ []; creator_ids = (78 ∷ [], pos 50) ∷ [] }

abbrev empty_factory : Factory
empty_factory = record {
  profile = some profile;
  protocol = no_protocol;
  creators = [];
  sending = [];
}

abbrev ready : Factory
ready = record {
  profile = some profile;
  protocol = version;
  creators = (pos 50, news) ∷ [];
  sending = (78 ∷ [], pos 50) ∷ [];
}

abbrev link : TcpConnection
link = record {
  online = true;
  bio = true;
  on_close = true;
  listening = true;
  closed_calls = 2;
  opened = 3;
  joins = 0;
  thread_closes = λ n. n == 0;
  twice = 0;
  written = [];
}

abbrev datagram : Datagram
datagram = record { name = 78 ∷ []; header_size = 3; fields = 5 ∷ 6 ∷ []; beyond = 9 ∷ 9 ∷ 9 ∷ [] }

send_received_example :
    (t : TcpConnection) × (head object : List ℕ) × (send_with true
        (replicate 2 retry ++ full ∷ [])
        (replicate 7 0)
        datagram
        ready
        link
      ≡ some t)
    × (t.written ≡ [] ++ (head ++ object))
    × ((rest : List Read)
        → receive_transferable [] empty_factory (gives head ∷ gives object ∷ rest)
          ≡ executes news datagram.fields ready rest)
unfolding Datagram.type Datagram.size type_id find set_protocol creator insert_creators insert_ids
    insert put
send_received_example =
    send_received true 2 [] (replicate 7 0) [] datagram (pos 50) ready empty_factory ready news link
      refl refl (ground arith) (ground arith, (ground arith, (ground arith, (ground arith, tt))))
      (ground arith) (ground arith) (ground arith) (ground arith) refl refl refl

-- Three bytes, an error, and seventeen bytes.
abbrev parts : List Read
parts = gives (1 ∷ 2 ∷ 3 ∷ []) ∷ negative ∷ gives (replicate 17 4) ∷ []

receive_thread-parts_example :
    (receive_thread 5 [] ready (parts ++ offline ∷ []) link
      ≡ receive_thread 5 [] ready (offline ∷ []) link)
    × (receive_thread 5 [] ready parts link ≡ ([], link))
receive_thread-parts_example =
    receive_thread-parts 5 [] ready link parts (offline ∷ [])
      ((λ e. ground arith), (λ e. ground arith), ((λ e. ground arith), (λ e. ground arith), tt))

abbrev calls : List Operation
calls =
    connects (some (again ∷ connected ∷ []))
    ∷ sends false (retry ∷ short 4 ∷ []) (replicate 7 0) datagram ready
    ∷ closes_it
    ∷ connects (some (refused ∷ []))
    ∷ []

abbrev after_calls : TcpConnection
after_calls = record {
  online = false;
  bio = false;
  on_close = true;
  listening = false;
  closed_calls = 6;
  opened = 5;
  joins = 2;
  thread_closes = λ n. n == 0;
  twice = 1;
  written = 5 ∷ 0 ∷ 0 ∷ 0 ∷ [];
}

perform_all-IsReported_example :
    IsReported after_calls
    × ((close false after_calls).closed_calls ≡ 5 + (close false after_calls).twice)
unfolding perform_all Datagram.type Datagram.size type_id find packet object_bytes read_memory
perform_all-IsReported_example =
    perform_all-IsReported calls link after_calls
      (record { listener = refl; once = refl; few = omega arith; has_bio = λ e. refl }) refl
