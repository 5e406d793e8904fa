-- ===== src/Joining.antt =====
-- A client's way into the game: its login request at the login server (servlogin), the answer, the
-- connection to the router (servrouter/src/main.cpp and Router.cpp), and how it ends.
mod Examples
use pxc_prop_strikes_back.Base.{
  ◌≡◌, refl, ap, ◌∙◌, ℕ, ◌+◌, ◌≤◌, ◌<◌, ℤ, pos, to_int, Bool, true, false, List, [], ◌∷◌, ◌++◌,
  Option, none, some, ◌>>=◌, length, arith, if◌then◌else◌,
}
use pxc_prop_strikes_back.Wire.Receiving.{c_string}
use pxc_prop_strikes_back.Wire.RoundTrip.{AllChars}
use pxc_prop_strikes_back.Login
use pxc_prop_strikes_back.Login.{Login, login_request, Unset}
use pxc_prop_strikes_back.Login.Password.{Backend, validate}
use pxc_prop_strikes_back.Login.Validity.{IsValid, MayLogin, ControlUp}
use pxc_prop_strikes_back.Login.Sessions.{IsSession}
use pxc_prop_strikes_back.Login.Requests.{login_request_right, answered}
use pxc_prop_strikes_back.Routing.Event
use pxc_prop_strikes_back.Routing.Router
use pxc_prop_strikes_back.Routing.Router.{Router}
use pxc_prop_strikes_back.Routing.Instructions.{client_callback}
use pxc_prop_strikes_back.Routing.Received.{Received, handle_all}
use pxc_prop_strikes_back.Routing.Arrived.{client_callback_lem}
use pxc_prop_strikes_back.Client.State
use pxc_prop_strikes_back.Client.State.{Client}
use pxc_prop_strikes_back.Client.Field.{field, field_read}
use pxc_prop_strikes_back.Client.LoggingIn.{Happening, received, looks, Sdl, refused, login}
use pxc_prop_strikes_back.Client.Answered.{looking, login_unanswered}

-- What a client sends, as the login server handles it: the names are C strings.
unfoldable pub at_login_server :
    Backend → (ℕ → Bool) → List ℕ → Unset → State.Sent → ℕ → Login → Option Login
at_login_server b link stale u (State.login_request l user password) c s = do
  name ← c_string user
  pwd ← c_string password
  login_request b link stale u name pwd c s
at_login_server b link stale u m c s = some s

-- What a client sends, as the router handles it: the manager of the clients' connections has the
-- `ClientListener` as its callback (servrouter/src/main.cpp), so that no datagram of a client is
-- executed, not even the `ConnectUserRcvd` with the type 200.
unfoldable pub at_router : State.Sent → Router → Option Router
unfolding client_callback
at_router (State.connect_request k id token) r = client_callback (Event.forwarded 200) r
at_router m r = some r

-- What the login server sends, as the client gets it. `k` is the client's connection to the router.
abbrev pub from_login_server : ℕ → Login.Sent → List Happening
from_login_server k (Login.login_answer c code ip port id token) =
    received (State.login_answer (pos code) id token (some k)) ∷ []
from_login_server k m = []

module _ (b : Backend) (link : ℕ → Bool) (stale : List ℕ) (u : Unset) (user password : List ℕ)
    (c : ℕ) (s : Login) where
  -- The login server's answer to a right password.
  asked_right :
      (l : ℕ)
      → AllChars user
      → AllChars password
      → length user ≤ 31
      → length password ≤ 31
      → IsValid s
      → s.next_free_token + 1 < 4294967296
      → MayLogin s user c
      → validate b stale user password ≡ some true
      → link c ≡ true
      → ControlUp link s
      → (t : Login) × (before : List Login.Sent) × (at_login_server b link stale u
            (State.login_request l (field user) (field password))
            c
            s
          ≡ some t)
        × (t.sent
            ≡ before
              ++ Login.login_answer c 0 Login.router_ip Login.router_port
                  (to_int s.next_free_token)
                  (to_int s.next_free_token)
                ∷ [])
        × IsSession t.tables (to_int s.next_free_token) user c
  unfolding at_login_server
  asked_right l chars chars' short short' v room may right up control =
      let (t, e, _, _, session) =
        login_request_right b link stale u user password c s up control v room may right in
      let id = to_int s.next_free_token in
      (
        answered c 0 Login.router_ip Login.router_port id id t,
        t.sent
            ++ (if t.control_connected
                then Login.new_client t.control_connection id id ∷ []
                else []),
        rw ((field_read user chars).2 short, (field_read password chars').2 short') e,
        refl,
        session,
      )

  -- A client asks for a login, with names that fit in the datagram and that the login server, with
  -- valid tables and numbers left, accepts over links that are up. The answer makes the client connect
  -- to a router and ask it. Whatever the router has received since its start, it does nothing and
  -- sends nothing. If nothing else arrives until the time is up, the login returns false: the client
  -- has the number of the session, which stays open at the login server, and counts as logged in only
  -- if it did before.
  pub joining :
      (sdl : Sdl) (a a' : ℕ) (rest : List Happening) (x : Client) (l k : ℕ) (xs : List Received)
      (r : Router)
      → AllChars user
      → AllChars password
      → length user ≤ 31
      → length password ≤ 31
      → IsValid s
      → s.next_free_token + 1 < 4294967296
      → MayLogin s user c
      → validate b stale user password ≡ some true
      → link c ≡ true
      → ControlUp link s
      → handle_all xs Router.new ≡ some r
      → x.login_link ≡ some l
      → (t : Login) × (answer : Login.Sent) × (before : List Login.Sent) × (y : Client)
        × (at_login_server b link stale u (State.login_request l (field user) (field password)) c s
            ≡ some t)
        × (t.sent ≡ before ++ answer ∷ [])
        × IsSession t.tables (to_int s.next_free_token) user c
        × (at_router
              (State.connect_request k (to_int s.next_free_token) (to_int s.next_free_token))
              r
            ≡ some r)
        × (login sdl
              (looking a ++ (from_login_server k answer ++ (looking a' ++ looks true ∷ rest)))
              user
              password
              x
            ≡ some (refused y))
        × (y.user_id ≡ to_int s.next_free_token)
        × (y.router ≡ some k)
        × (y.logged_in ≡ x.logged_in)
  unfolding at_router
  joining sdl a a' rest x l k xs r chars chars' short short' v room may right up control arrived e =
      let id = to_int s.next_free_token in
      let (t, before, f, sent, session) =
        asked_right l chars chars' short short' v room may right up control in
      let (y, refuses, same_id, _, same_router, _, logged) =
        login_unanswered sdl a a' rest user password x l k id id e in
      (
        t,
        Login.login_answer c 0 Login.router_ip Login.router_port id id,
        before,
        y,
        f,
        sent,
        session,
        client_callback_lem xs r (Event.forwarded 200) arrived,
        refuses,
        same_id,
        same_router,
        logged,
      )
