-- ===== src/Wire/Factory.antt =====
-- conexion/source/TransferableFactory.cpp and TransferableProfile.cpp, and the creators of
-- conexion/include/Datagram.h.
use pxc_prop_strikes_back.Base.{
  ℕ, ℤ, List, [], ◌∷◌, Option, none, some, if◌then◌else◌, on_found, is_some, Map, find, insert,
  int_key, bytes_key, eq_bytes,
}

-- A `Datagram<T>::Creator`: the name of the type, and `sizeof(T) - sizeof(Datagram<T>)`.
pub record Creator : Type 0 where
  pub name : List ℕ
  pub type_size : ℕ

-- The lists are the same for every protocol: no profile overrides the two virtual functions.
pub record Profile : Type 0 where
  pub creators : List (ℤ × Creator)
  pub creator_ids : List (List ℕ × ℤ)

-- What a `TransferableVersionException` says.
pub data Failure : Type 0 where
  no_profile : Failure
  no_protocol_set : Failure
  type_not_found : Failure
  creator_not_found : Failure
  already_in_factory : Failure

pub data Result (A : Type 0) : Type 0 where
  ok : A → Result A
  throws : Failure → Result A

pub record Factory : Type 0 where
  pub profile : Option Profile
  pub protocol : List ℕ
  pub creators : Map ℤ Creator
  pub sending : Map (List ℕ) ℤ

-- "none"
abbrev pub no_protocol : List ℕ
no_protocol = 110 ∷ 111 ∷ 110 ∷ 101 ∷ []

unfoldable pub clear : Factory → Factory
clear f = record f { protocol = no_protocol; creators = []; sending = [] }

-- The test is the wrong way round: only a type that is there is inserted, and `insert` keeps it.
unfoldable pub add_creator : ℤ → Creator → Factory → Result Factory
add_creator type c f =
    if is_some (find type f.creators)
    then ok (record f { creators = insert type c f.creators })
    else throws already_in_factory

-- The loops of `setProtocol`: an entry that is there stays.
unfoldable pub insert_creators : List (ℤ × Creator) → Map ℤ Creator → Map ℤ Creator
insert_creators [] m = m
insert_creators ((k, c) ∷ cs) m = insert_creators cs (insert k c m)

unfoldable pub insert_ids : List (List ℕ × ℤ) → Map (List ℕ) ℤ → Map (List ℕ) ℤ
insert_ids [] m = m
insert_ids ((name, k) ∷ ids) m = insert_ids ids (insert name k m)

-- The factory is cleared first, also where this throws.
unfoldable pub set_protocol : List ℕ → Factory → Factory × Option Failure
unfolding clear insert_creators insert_ids
set_protocol version f =
    on_found f.profile (clear f, some no_profile)
      λ p. if eq_bytes version no_protocol then (clear f, none) else (
        record f {
          protocol = version;
          creators = insert_creators p.creators [];
          sending = insert_ids p.creator_ids [];
        },
        none,
      )

unfoldable pub type_id : List ℕ → Factory → Result ℤ
type_id name f = on_found f.profile (throws no_profile) λ p.
    if eq_bytes f.protocol no_protocol
    then throws no_protocol_set
    else on_found (find name f.sending) (throws type_not_found) ok

unfoldable pub creator : ℤ → Factory → Result Creator
creator type f = on_found f.profile (throws no_profile) λ p.
    if eq_bytes f.protocol no_protocol
    then throws no_protocol_set
    else on_found (find type f.creators) (throws creator_not_found) ok
