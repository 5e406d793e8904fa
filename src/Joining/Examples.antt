-- ===== src/Joining/Examples.antt =====
-- The way into the game at concrete states: a login server and a router that have just started.
use pxc_prop_strikes_back.Base.{
  ◌≡◌, refl, ℕ, ℤ, pos, minus_one, true, false, List, [], ◌∷◌, ◌++◌, some, none, find, nat_key,
  arith, Bool,
}
use pxc_prop_strikes_back.Login
use pxc_prop_strikes_back.Login.{Login, initialize_login, Unset}
use pxc_prop_strikes_back.Login.Password.{Backend, codes, validate}
use pxc_prop_strikes_back.Login.Sessions.{IsSession}
use pxc_prop_strikes_back.Login.Requests.{initialize_login-IsValid}
use pxc_prop_strikes_back.Routing.Router
use pxc_prop_strikes_back.Routing.Router.{Router}
use pxc_prop_strikes_back.Routing.Received.{handle_all}
use pxc_prop_strikes_back.Client.State
use pxc_prop_strikes_back.Client.State.{Client}
use pxc_prop_strikes_back.Client.Field.{field}
use pxc_prop_strikes_back.Client.LoggingIn.{Sdl, looks, refused, login}
use pxc_prop_strikes_back.Client.Answered.{looking}
use pxc_prop_strikes_back.Joining.{at_login_server, at_router, from_login_server, joining}

abbrev open_backend : Backend
open_backend = record { sha1 = λ b. b; num_rows = λ q. some 1; spare = 8 }

abbrev up : ℕ → Bool
up c = true

abbrev unset : Unset
unset = record { client_id = minus_one; token = minus_one; router_ip = []; router_port = [] }

abbrev working : Sdl
working = record { inits = true; surface = true; game_inits = true }

abbrev ready : Client
ready = record {
  game = none;
  user_id = minus_one;
  token = minus_one;
  user = [];
  password = [];
  login_link = some 1;
  router = none;
  is_on_login = false;
  logged_in = false;
  bad_log_on = false;
  init_done = false;
  sent = [];
}

abbrev ann : List ℕ
ann = codes "ann"

nobody : (id : ℤ) → find 7 (initialize_login 0).tables.connection_to_id_map ≡ some id → ⊥
unfolding initialize_login find
nobody id e = ground arith

joining_example :
    (t : Login) × (answer : Login.Sent) × (before : List Login.Sent) × (y : Client)
    × (at_login_server open_backend up [] unset
          (State.login_request 1 (field ann) (field ann))
          7
          (initialize_login 0)
        ≡ some t)
    × (t.sent ≡ before ++ answer ∷ [])
    × IsSession t.tables (pos 0) ann 7
    × (at_router (State.connect_request 2 (pos 0) (pos 0)) Router.new ≡ some Router.new)
    × (login working
          (looking 1 ++ (from_login_server 2 answer ++ (looking 1 ++ looks true ∷ [])))
          ann
          ann
          ready
        ≡ some (refused y))
    × (y.user_id ≡ pos 0)
    × (y.router ≡ some 2)
    × (y.logged_in ≡ false)
unfolding initialize_login handle_all
joining_example =
    joining open_backend up [] unset ann ann 7 (initialize_login 0) working 1 1 [] ready 1 2 []
      Router.new (λ e. ground arith, (λ e. ground arith, (λ e. ground arith, tt)))
      (λ e. ground arith, (λ e. ground arith, (λ e. ground arith, tt))) (omega arith) (omega arith)
      (initialize_login-IsValid 0) (omega arith) (λ id e. absurd (nobody id e))
      (unfold validate in refl) refl (λ e. refl) refl refl
