-- ===== src/Profiles.antt =====
-- The instruction tables of the programs: the constructors of LoginProfile, RouterProfile,
-- ControlProfile, GameServerProfile and ClientProfile. What each instruction adds to a datagram in
-- size depends on the compiler, and is a parameter.
pub mod Agreement
mod Examples
use pxc_prop_strikes_back.Base.{ℕ, ℤ, pos, List, [], ◌∷◌}
use pxc_prop_strikes_back.Login.Password.{codes}
use pxc_prop_strikes_back.Wire.Factory.{Creator, Profile}
use Prim.Native.String.{String}

-- An entry of `mCreatorIds`.
abbrev sent_as : String → ℕ → List ℕ × ℤ
sent_as name k = (codes name, pos k)

module _ (size_of : List ℕ → ℕ) where
  -- An entry of `mCreators`.
  abbrev made_of : ℕ → String → ℤ × Creator
  made_of k name = (pos k, record { name = codes name; type_size = size_of (codes name) })

  unfoldable pub login_profile : Profile
  login_profile = record {
    creators =
        made_of 100 "LoginRequestRcvd"
        ∷ made_of 102 "LogoutRequestRcvd"
        ∷ made_of 51 "ControlConnectionRcvd"
        ∷ [];
    creator_ids =
        sent_as "LoginRequestSend" 101
        ∷ sent_as "LogoutRequestSend" 103
        ∷ sent_as "NewClientSend" 50
        ∷ sent_as "ClientDisconnectSend" 52
        ∷ [];
  }

  unfoldable pub router_profile : Profile
  router_profile = record {
    creators =
        made_of 5 "ChangeZoneRcvd"
        ∷ made_of 6 "GetServerIpRvcd"
        ∷ made_of 7 "SetZoneToServerRcvd"
        ∷ made_of 60 "AddUserRcvd"
        ∷ made_of 61 "DelUserRcvd"
        ∷ made_of 8 "SetAddUserRcvd"
        ∷ made_of 9 "SetDelUserRcvd"
        ∷ made_of 155 "EndZoneTransferRcvd"
        ∷ made_of 200 "ConnectUserRcvd"
        ∷ [];
    creator_ids =
        sent_as "GetServerIpSend" 1
        ∷ sent_as "AddUserSend" 8
        ∷ sent_as "DelUserSend" 9
        ∷ sent_as "AddRouterSend" 150
        ∷ sent_as "ConnectCLientSend" 201
        ∷ [];
  }

  unfoldable pub control_profile : Profile
  control_profile = record {
    creators =
        made_of 0 "ServerLoadRcvd"
        ∷ made_of 1 "IPServerRcvd"
        ∷ made_of 50 "NewUserRcvd"
        ∷ made_of 52 "DisconnectUserRcvd"
        ∷ [];
    creator_ids =
        sent_as "ServerLoadSend" 2
        ∷ sent_as "RemoveZoneSend" 3
        ∷ sent_as "GetZoneSend" 4
        ∷ sent_as "IPServerSend" 6
        ∷ sent_as "SetZoneToServerSend" 7
        ∷ sent_as "GameNewUserSend" 8
        ∷ sent_as "GameDeleteUserSend" 9
        ∷ sent_as "LoginOnlineSend" 51
        ∷ sent_as "RouterChangeZoneSend" 5
        ∷ sent_as "RouterNewUserSend" 60
        ∷ sent_as "RouterDeleteUserSend" 61
        ∷ [];
  }

  unfoldable pub game_server_profile : Profile
  game_server_profile = record {
    creators =
        made_of 2 "ServerLoadOrderRcvd"
        ∷ made_of 3 "SetZoneOrderRcvd"
        ∷ made_of 4 "GetZoneOrderRcvd"
        ∷ made_of 6 "SetServerIpRvcd"
        ∷ made_of 7 "SetZoneToServerRcvd"
        ∷ made_of 8 "AddUserRcvd"
        ∷ made_of 9 "DelUserRcvd"
        ∷ [];
    creator_ids = sent_as "ServerLoadAnswerSend" 0 ∷ sent_as "GetServerIpSend" 1 ∷ [];
  }

  unfoldable pub client_profile : Profile
  client_profile = record {
    creators =
        made_of 101 "LoginRequestRcvd"
        ∷ made_of 201 "ConnectCLientReceived"
        ∷ made_of 500 "SetUserStatusRcvd"
        ∷ made_of 501 "SetZoneRcvd"
        ∷ [];
    creator_ids =
        sent_as "LoginRequestSend" 100
        ∷ sent_as "ConnectClientSend" 200
        ∷ sent_as "SetZoneSend" 501
        ∷ sent_as "SetDestinationSend" 502
        ∷ [];
  }
