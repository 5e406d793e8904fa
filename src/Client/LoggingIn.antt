-- ===== src/Client/LoggingIn.antt =====
-- `Client::login`, `init` and `go` of cliente/src/Client.cpp.
use pxc_prop_strikes_back.Base.{
  ℕ, Bool, true, false, ◌&&◌, List, [], ◌∷◌, Option, some, ◌>>=◌, if◌then◌else◌, on_found,
}
use pxc_prop_strikes_back.Client.State.{Instruction, login_request, Client, record_sent}
use pxc_prop_strikes_back.Client.Instructions.{execute, step}
use pxc_prop_strikes_back.Client.Field.{field}

-- What happens while `login` waits, in the order in which the threads do it: a connection's thread
-- executes an instruction, or the loop looks at `isOnLogin` and then at the time, which is up or
-- not.
pub data Happening : Type 0 where
  received : Instruction → Happening
  looks : (late : Bool) → Happening

-- Where the loop is left: `isOnLogin` is false, or the time is up, or it goes on.
pub data Waited : Type 0 where
  ended : Client → Waited
  timed_out : Client → Waited
  waiting : Client → Waited

unfoldable pub wait : List Happening → Client → Option Waited
unfolding execute
wait [] s = some (waiting s)
wait (received i ∷ hs) s = do t ← execute false i s; wait hs t
wait (looks late ∷ hs) s =
    let rest = wait hs s in
    if s.is_on_login
    then if late then some (timed_out (record s { is_on_login = false })) else rest
    else some (ended s)

-- The answers of SDL, and of the game's `init`.
pub record Sdl : Type 0 where
  pub inits : Bool
  pub surface : Bool
  pub game_inits : Bool

unfoldable pub init : Sdl → Client → Client × Bool
init sdl s =
    on_found s.game (s, false)
      λ _.
        if sdl.inits && sdl.surface
        then (record s { init_done = true }, sdl.game_inits)
        else (s, false)

-- What `login` comes to: it returns false, or it plays, which it does for ever, or it waits.
pub data Result : Type 0 where
  refused : Client → Result
  plays : Client → Result
  still_waits : Client → Result

unfoldable pub after_login : Sdl → List ℕ → List ℕ → Client → Result
unfolding init
after_login sdl user password s =
    let (t, ready) = init sdl s in
    if s.bad_log_on
    then refused s
    else if ready
    then plays (record t { user = user; password = password; logged_in = true })
    else refused t

abbrev pub login_result : Sdl → List ℕ → List ℕ → Waited → Result
login_result sdl user password (ended s) = after_login sdl user password s
login_result sdl user password (timed_out s) = refused s
login_result sdl user password (waiting s) = still_waits s

-- `login`: the names are cut to the size of the datagram's fields.
unfoldable pub login : Sdl → List Happening → List ℕ → List ℕ → Client → Option Result
unfolding field wait after_login
login sdl hs user password s = on_found s.login_link (some (refused s)) λ c. do
  w ← wait hs (
      record_sent (login_request c (field user) (field password)) (record s { is_on_login = true }))
  some (login_result sdl user password w)

-- The loop of `go`, for the turns that a list gives; it leaves only when `logged_in` or `init_done`
-- is not set, which it looks at before each turn.
unfoldable pub go : List Bool → Client → Option Client
unfolding step
go [] s = some s
go (valid ∷ vs) s =
    let rest = step valid s >>= λ t. go vs t in if s.logged_in && s.init_done then rest else some s
