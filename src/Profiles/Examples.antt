-- ===== src/Profiles/Examples.antt =====
-- The agreement of the tables at one channel.
use pxc_prop_strikes_back.Base.{◌≡◌, refl, ℕ, ℤ, List, [], some, none, arith}
use pxc_prop_strikes_back.Login.Password.{codes}
use pxc_prop_strikes_back.Wire.Factory.{
  Creator, Factory, ok, throws, creator_not_found, type_id, creator, set_protocol, no_protocol,
}
use pxc_prop_strikes_back.Profiles.{client_profile, router_profile}
use pxc_prop_strikes_back.Profiles.Agreement.{
  Among, client_to_router, understood, not_understood, instructions_agree,
}

abbrev size_of : List ℕ → ℕ
size_of name = 8

abbrev of_client : Factory
of_client = record {
  profile = some (client_profile size_of);
  protocol = no_protocol;
  creators = [];
  sending = [];
}

abbrev of_router : Factory
of_router = record of_client { profile = some (router_profile size_of) }

instructions_agree_example :
    (f g : Factory) × (set_protocol (codes "0.1a") of_client ≡ (f, none))
    × (set_protocol (codes "0.1a") of_router ≡ (g, none))
    × (Among (codes "SetZoneSend") (understood client_to_router)
        → (k : ℤ) × (c : Creator) × (type_id (codes "SetZoneSend") f ≡ ok k) × (creator k g ≡ ok c))
    × (Among (codes "SetZoneSend") (not_understood client_to_router)
        → (k : ℤ) × (type_id (codes "SetZoneSend") f ≡ ok k)
          × (creator k g ≡ throws creator_not_found))
instructions_agree_example =
    instructions_agree size_of client_to_router (codes "0.1a") (codes "SetZoneSend") of_client
      of_router refl refl (λ e. ground arith)
