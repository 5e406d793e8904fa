-- ===== src/Client/Unplayable.antt =====
-- A client has no game when it starts, and nothing gives it one (cliente/src/Client.cpp).
use pxc_prop_strikes_back.Base.{
  ◌≡◌, refl, ℕ, ℤ, pos, Bool, true, false, ◌&&◌, List, [], ◌∷◌, Option, none, some, eq_int,
  Bool-cases, Option-cases, inl, inr, arith,
}
use pxc_prop_strikes_back.Client.State.{
  Conn, Instruction, login_answer, connect_client, set_user_status, set_zone, Client, new_client,
  set_login_address, set_zone_of, router_connection, login_request, record_sent,
}
use pxc_prop_strikes_back.Client.Instructions.{
  execute, login_request_received, connect_client_received, set_user_status_received,
}
use pxc_prop_strikes_back.Client.Field.{field}
use pxc_prop_strikes_back.Client.LoggingIn.{
  Happening, received, looks, Waited, ended, timed_out, waiting, wait, Sdl, init, Result, refused,
  plays, still_waits, after_login, login_result, login,
}

-- No game, and not logged in.
abbrev pub IsIdle : Client → Type 0
IsIdle s = (s.game ≡ none) × (s.logged_in ≡ false)

router_connection-IsIdle : (c : Conn) (s : Client) → IsIdle s → IsIdle (router_connection c s)
unfolding router_connection
router_connection-IsIdle c s h = elim (Option-cases s.router) [
  | inl e ↦ rw e h
  | inr (old, e) ↦ rw e h
]

login_request_received-IsIdle :
    (code client_id token : ℤ) (dialled : Option Conn) (s : Client)
    → IsIdle s
    → IsIdle (login_request_received code client_id token dialled s)
unfolding login_request_received
login_request_received-IsIdle code client_id token none s h =
    elim (Bool-cases (eq_int code (pos 0))) [ inl e ↦ rw e h | inr e ↦ rw e h ]
login_request_received-IsIdle code client_id token (some c) s h =
    elim (Bool-cases (eq_int code (pos 0))) [
      | inl e ↦ rw e (
          router_connection-IsIdle c
            (record s { bad_log_on = false; user_id = client_id; token = token }) h)
      | inr e ↦ rw e h
    ]

-- Every instruction is executed, and leaves the client idle.
pub execute-IsIdle :
    (held : Bool) (i : Instruction) (s : Client)
    → IsIdle s
    → (t : Client) × (execute held i s ≡ some t) × IsIdle t
unfolding execute connect_client_received set_user_status_received set_zone_of
execute-IsIdle held (login_answer code client_id token dialled) s h =
    (_, refl, login_request_received-IsIdle code client_id token dialled s h)
execute-IsIdle held (connect_client client_id zone) s h =
    elim (Bool-cases (eq_int s.user_id client_id && s.is_on_login)) [
      | inl e ↦ (record s { is_on_login = false }, rw (e, h.0) refl, h)
      | inr e ↦ (s, rw e refl, h)
    ]
execute-IsIdle held (set_user_status user zone) s h = (s, rw (h.0) refl, h)
execute-IsIdle held (set_zone zone) s h = (s, rw (h.0) refl, h)

abbrev pub WaitedIdle : Waited → Type 0
WaitedIdle (ended s) = IsIdle s
WaitedIdle (timed_out s) = IsIdle s
WaitedIdle (waiting s) = IsIdle s

wait-IsIdle :
    (hs : List Happening) (s : Client)
    → IsIdle s
    → (w : Waited) × (wait hs s ≡ some w) × WaitedIdle w
unfolding wait
wait-IsIdle [] s h = (_, refl, h)
wait-IsIdle (received i ∷ hs) s h =
    let (t, e, k) = execute-IsIdle false i s h in
    let (w, e', k') = wait-IsIdle hs t k in (w, rw e e', k')
wait-IsIdle (looks late ∷ hs) s h = elim (Bool-cases s.is_on_login) [
  | inr off ↦ (ended s, rw off refl, h)
  | inl on ↦ elim (Bool-cases late) [
    | inl up ↦ (timed_out (record s { is_on_login = false }), rw (on, up) refl, h)
    | inr early ↦ let (w, e, k) = wait-IsIdle hs s h in (w, simp (on, early) e, k)
  ]
]

-- `login` did not succeed.
abbrev pub NotPlaying : Result → Type 0
NotPlaying (refused s) = IsIdle s
NotPlaying (plays s) = ⊥
NotPlaying (still_waits s) = IsIdle s

init_without_game : (sdl : Sdl) (s : Client) → s.game ≡ none → init sdl s ≡ (s, false)
unfolding init
init_without_game sdl s e = simp e

after_login-refused :
    (sdl : Sdl) (user password : List ℕ) (s : Client)
    → s.game ≡ none
    → after_login sdl user password s ≡ refused s
unfolding after_login
after_login-refused sdl user password s e = rw (init_without_game sdl s e) (ground arith)

login_result_idle :
    (sdl : Sdl) (user password : List ℕ) (w : Waited)
    → WaitedIdle w
    → NotPlaying (login_result sdl user password w)
login_result_idle sdl user password (ended s) h = rw (after_login-refused sdl user password s h.0) h
login_result_idle sdl user password (timed_out s) h = h
login_result_idle sdl user password (waiting s) h = h

-- The client as it starts, with any login server, names, answers of SDL, and anything that arrives
-- during the login: no instruction faults, the login does not succeed, and the client still has no
-- game.
pub login_unplayable :
    (dialled : Option Conn) (sdl : Sdl) (hs : List Happening) (user password : List ℕ)
    → (r : Result) × (login sdl hs user password (set_login_address dialled new_client) ≡ some r)
      × NotPlaying r
unfolding login set_login_address new_client
login_unplayable none sdl hs user password = (_, refl, (refl, refl))
login_unplayable (some c) sdl hs user password =
    let (w, e, h) =
      wait-IsIdle hs
        (record_sent (login_request c (field user) (field password))
          (record (set_login_address (some c) new_client) { is_on_login = true }))
        (refl, refl) in
    (login_result sdl user password w, rw e refl, login_result_idle sdl user password w h)
