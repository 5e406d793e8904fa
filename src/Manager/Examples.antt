-- ===== src/Manager/Examples.antt =====
-- The theorems on the connection manager at concrete states.
use pxc_prop_strikes_back.Base.{◌≡◌, refl, ℕ, Bool, true, false, List, [], ◌∷◌, some, none}
use pxc_prop_strikes_back.Wire.Sending.{Link}
use pxc_prop_strikes_back.Manager.Connections.{Peer, Manager, connects, check_conexions_offline}
use pxc_prop_strikes_back.Manager.Admission.{
  keep_online, Turn, listens, goes_offline, all_turns, check_conexions_offline_lem, AllAdmitted,
  all_turns_admitted,
}
use pxc_prop_strikes_back.Manager.Closing.{
  accepting, testing, finished, System, at, OnlyStep, close_manager, close_manager_lem,
}

-- `SSL_shutdown` succeeds at once.
abbrev at_once : ℕ → Bool
at_once n = true

abbrev link : Bool → Link
link online = record {
  online = online;
  ssl = online;
  on_close = false;
  listening = true;
  closed_calls = 0;
  written = [];
}

abbrev peer : Bool → Peer
peer online = record { link = link online; callback = true; certified = true }

abbrev idle : Manager
idle = record {
  thread = true;
  listening = true;
  callback = true;
  on_close = false;
  connections = [];
}

abbrev busy : Manager
busy = record idle { connections = some (peer true) ∷ some (peer false) ∷ some (peer true) ∷ [] }

check_conexions_offline_lem_example :
    ((peer true).link.online ≡ true
      → check_conexions_offline at_once 1 busy
        ≡ some (record busy { connections = keep_online busy.connections }))
    × ((peer true).link.online ≡ false → check_conexions_offline at_once 1 busy ≡ none)
check_conexions_offline_lem_example =
    check_conexions_offline_lem at_once 1 busy (peer true)
      (some (peer false) ∷ some (peer true) ∷ []) refl

-- A peer with a good certificate, one with a bad one, and the first goes offline.
abbrev evening : List Turn
evening = listens (connects true) ∷ listens (connects false) ∷ goes_offline 0 ∷ []

abbrev at_night : Manager
at_night = record idle {
  connections =
      some
        (record { link = record (link false) { ssl = false }; callback = true; certified = true })
      ∷ some (record {
        link = record (link false) { ssl = false; listening = false };
        callback = false;
        certified = false;
      })
      ∷ [];
}

all_turns_admitted_example : AllAdmitted at_night.connections
unfolding all_turns
all_turns_admitted_example = all_turns_admitted at_once 1 evening idle at_night tt refl

-- A manager whose thread waits for a peer.
abbrev waiting : System
waiting = record { listening = true; closing = false; stage = accepting }

close_manager_lem_example :
    OnlyStep (close_manager waiting) (at testing (close_manager waiting))
    × OnlyStep (at testing (close_manager waiting)) (at finished (close_manager waiting))
close_manager_lem_example = (close_manager_lem waiting waiting).1 refl
