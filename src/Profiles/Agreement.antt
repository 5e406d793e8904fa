-- ===== src/Profiles/Agreement.antt =====
-- Whether the one who gets an instruction can create what the other sends (the profiles of
-- servlogin, servrouter, servcontrol, servjuego and cliente).
use pxc_prop_strikes_back.Base.{
  ℕ, ℤ, ◌≡◌, ◌≢◌, refl, ap, ◌∙◌, ◌⊎◌, inl, inr, List, [], ◌∷◌, Option, none, some, on_found, find,
  int_key, bytes_key, arith, Bool, true, false, ◌&&◌, ◌>>=◌, Option-cases,
}
use pxc_prop_strikes_back.Login.Password.{codes}
use pxc_prop_strikes_back.Wire.Factory.{
  Creator, Profile, Factory, ok, throws, creator_not_found, type_not_found, type_id, creator,
  set_protocol, no_protocol,
}
use pxc_prop_strikes_back.Wire.Agreement.{set_protocol_lem}
use pxc_prop_strikes_back.Profiles.{
  login_profile, router_profile, control_profile, game_server_profile, client_profile,
}

-- Who sends to whom.
pub data Channel : Type 0 where
  login_to_client : Channel
  client_to_login : Channel
  login_to_control : Channel
  control_to_login : Channel
  control_to_game : Channel
  game_to_control : Channel
  control_to_router : Channel
  router_to_control : Channel
  router_to_game : Channel
  client_to_router : Channel
  router_to_client : Channel

abbrev pub sender : (List ℕ → ℕ) → Channel → Profile
sender size_of login_to_client = login_profile size_of
sender size_of client_to_login = client_profile size_of
sender size_of login_to_control = login_profile size_of
sender size_of control_to_login = control_profile size_of
sender size_of control_to_game = control_profile size_of
sender size_of game_to_control = game_server_profile size_of
sender size_of control_to_router = control_profile size_of
sender size_of router_to_control = router_profile size_of
sender size_of router_to_game = router_profile size_of
sender size_of client_to_router = client_profile size_of
sender size_of router_to_client = router_profile size_of

abbrev pub receiver : (List ℕ → ℕ) → Channel → Profile
receiver size_of login_to_client = client_profile size_of
receiver size_of client_to_login = login_profile size_of
receiver size_of login_to_control = control_profile size_of
receiver size_of control_to_login = login_profile size_of
receiver size_of control_to_game = game_server_profile size_of
receiver size_of game_to_control = control_profile size_of
receiver size_of control_to_router = router_profile size_of
receiver size_of router_to_control = control_profile size_of
receiver size_of router_to_game = game_server_profile size_of
receiver size_of client_to_router = router_profile size_of
receiver size_of router_to_client = client_profile size_of

-- The instructions that are sent, by the constructors that the programs call, and whether the other
-- side has a creator for them.
abbrev pub understood : Channel → List (List ℕ)
understood login_to_client = codes "LoginRequestSend" ∷ []
understood client_to_login = codes "LoginRequestSend" ∷ []
understood login_to_control = codes "NewClientSend" ∷ codes "ClientDisconnectSend" ∷ []
understood control_to_login = codes "LoginOnlineSend" ∷ []
understood control_to_game =
    codes "ServerLoadSend"
    ∷ codes "RemoveZoneSend"
    ∷ codes "GetZoneSend"
    ∷ codes "SetZoneToServerSend"
    ∷ codes "GameNewUserSend"
    ∷ codes "GameDeleteUserSend"
    ∷ []
understood game_to_control = codes "ServerLoadAnswerSend" ∷ codes "GetServerIpSend" ∷ []
understood control_to_router =
    codes "IPServerSend"
    ∷ codes "RouterChangeZoneSend"
    ∷ codes "RouterNewUserSend"
    ∷ codes "RouterDeleteUserSend"
    ∷ []
understood router_to_control = codes "GetServerIpSend" ∷ []
understood router_to_game = []
understood client_to_router = codes "ConnectClientSend" ∷ []
understood router_to_client = codes "ConnectCLientSend" ∷ []

abbrev pub not_understood : Channel → List (List ℕ)
not_understood login_to_client = codes "LogoutRequestSend" ∷ []
not_understood router_to_game = codes "AddRouterSend" ∷ []
not_understood client_to_router = codes "SetZoneSend" ∷ codes "SetDestinationSend" ∷ []
not_understood _ = []

abbrev pub Among : List ℕ → List (List ℕ) → Type 0
Among n [] = ⊥
Among n (x ∷ xs) = (n ≡ x) ⊎ Among n xs

-- Whether the sender has a number for a name, and the receiver a creator for that number.
abbrev pub lookup_creator : Profile → Profile → List ℕ → Option (ℤ × Option Creator)
lookup_creator s r n = find n s.creator_ids >>= λ k. some (k, find k r.creators)

abbrev has_creator : Option (ℤ × Option Creator) → Bool
has_creator none = false
has_creator (some (k, none)) = false
has_creator (some (k, some c)) = true

abbrev has_no_creator : Option (ℤ × Option Creator) → Bool
has_no_creator none = false
has_no_creator (some (k, none)) = true
has_no_creator (some (k, some c)) = false

abbrev every : (List ℕ → Bool) → List (List ℕ) → Bool
every test [] = true
every test (n ∷ ns) = test n && every test ns

every-Among :
    (test : List ℕ → Bool) (ns : List (List ℕ)) (n : List ℕ)
    → every test ns ≡ true
    → Among n ns
    → test n ≡ true
every-Among test [] n h m = elim m [ ]
every-Among test (x ∷ xs) n h (inl e) = rw e (ground arith)
every-Among test (x ∷ xs) n h (inr m) = every-Among test xs n (ground arith) m

has_creator_sound :
    (o : Option (ℤ × Option Creator))
    → has_creator o ≡ true
    → (k : ℤ) × (c : Creator) × (o ≡ some (k, some c))
has_creator_sound none h = absurd (ground arith)
has_creator_sound (some (k, none)) h = absurd (ground arith)
has_creator_sound (some (k, some c)) h = (k, c, refl)

has_no_creator_sound :
    (o : Option (ℤ × Option Creator)) → has_no_creator o ≡ true → (k : ℤ) × (o ≡ some (k, none))
has_no_creator_sound none h = absurd (ground arith)
has_no_creator_sound (some (k, none)) h = (k, refl)
has_no_creator_sound (some (k, some c)) h = absurd (ground arith)

lookup_creator_parts :
    (s r : Profile) (n : List ℕ) (k : ℤ) (o : Option Creator)
    → lookup_creator s r n ≡ some (k, o)
    → (find n s.creator_ids ≡ some k) × (find k r.creators ≡ o)
lookup_creator_parts s r n k o e = elim (Option-cases (find n s.creator_ids)) [
  | inl f ↦ absurd (ground arith)
  | inr (j, f) ↦ (ground arith, ground arith)
]

module _ (size_of : List ℕ → ℕ) where
  understood_listed :
      (ch : Channel)
      → every
          (λ n. has_creator (lookup_creator (sender size_of ch) (receiver size_of ch) n))
          (understood ch)
        ≡ true
  unfolding find login_profile router_profile control_profile game_server_profile client_profile
  understood_listed login_to_client = refl
  understood_listed client_to_login = refl
  understood_listed login_to_control = refl
  understood_listed control_to_login = refl
  understood_listed control_to_game = refl
  understood_listed game_to_control = refl
  understood_listed control_to_router = refl
  understood_listed router_to_control = refl
  understood_listed router_to_game = refl
  understood_listed client_to_router = refl
  understood_listed router_to_client = refl

  not_understood_unlisted :
      (ch : Channel)
      → every
          (λ n. has_no_creator (lookup_creator (sender size_of ch) (receiver size_of ch) n))
          (not_understood ch)
        ≡ true
  unfolding find login_profile router_profile control_profile game_server_profile client_profile
  not_understood_unlisted login_to_client = refl
  not_understood_unlisted client_to_login = refl
  not_understood_unlisted login_to_control = refl
  not_understood_unlisted control_to_login = refl
  not_understood_unlisted control_to_game = refl
  not_understood_unlisted game_to_control = refl
  not_understood_unlisted control_to_router = refl
  not_understood_unlisted router_to_control = refl
  not_understood_unlisted router_to_game = refl
  not_understood_unlisted client_to_router = refl
  not_understood_unlisted router_to_client = refl

  -- Two programs of a channel, with their profiles and one protocol other than "none" set. Every
  -- instruction that the one sends has a number. The other has a creator for that number, except for
  -- the answer to a logout at the client, for the router's introduction at a game server, and for
  -- the two moves of the client's game at the router: for these it throws.
  pub instructions_agree :
      (ch : Channel) (version n : List ℕ) (f g : Factory)
      → f.profile ≡ some (sender size_of ch)
      → g.profile ≡ some (receiver size_of ch)
      → version ≢ no_protocol
      → (f' g' : Factory) × (set_protocol version f ≡ (f', none))
        × (set_protocol version g ≡ (g', none))
        × (Among n (understood ch)
            → (k : ℤ) × (c : Creator) × (type_id n f' ≡ ok k) × (creator k g' ≡ ok c))
        × (Among n (not_understood ch)
            → (k : ℤ) × (type_id n f' ≡ ok k) × (creator k g' ≡ throws creator_not_found))
  instructions_agree ch version n f g e h ne =
      let s = sender size_of ch in
      let r = receiver size_of ch in
      let (f', set_f, _, _, ids) = set_protocol_lem version f s e ne in
      let (g', set_g, _, makes, _) = set_protocol_lem version g r h ne in
      (
        f',
        g',
        set_f,
        set_g,
        λ m.
            let (k, c, l) = has_creator_sound (lookup_creator s r n) (
              every-Among (λ x. has_creator (lookup_creator s r x)) (understood ch) n
                (understood_listed ch) m) in
            let (a, b) = lookup_creator_parts s r n k (some c) l in
            (
              k,
              c,
              ids n ∙ ap (λ o. on_found o (throws type_not_found) ok) a,
              makes k ∙ ap (λ o. on_found o (throws creator_not_found) ok) b,
            ),
        λ m.
            let (k, l) = has_no_creator_sound (lookup_creator s r n) (
              every-Among (λ x. has_no_creator (lookup_creator s r x)) (not_understood ch) n
                (not_understood_unlisted ch) m) in
            let (a, b) = lookup_creator_parts s r n k none l in
            (
              k,
              ids n ∙ ap (λ o. on_found o (throws type_not_found) ok) a,
              makes k ∙ ap (λ o. on_found o (throws creator_not_found) ok) b,
            ),
      )
