-- ===== src/Client/Answered.antt =====
-- What `login` comes to while it waits (cliente/src/Client.cpp, InstLogin.cpp, InstRouter.cpp).
use pxc_prop_strikes_back.Base.{
  zero, suc, ◌≡◌, refl, ◌∙◌, ℕ, ℤ, pos, Bool, true, false, List, ◌∷◌, ◌++◌, some, ◌>>=◌,
  Option-cases, inl, inr, replicate,
}
use pxc_prop_strikes_back.Client.State.{
  Conn, Instruction, login_answer, Client, router_connection, login_request, connect_request,
  record_sent,
}
use pxc_prop_strikes_back.Client.Instructions.{execute, login_request_received}
use pxc_prop_strikes_back.Client.Field.{field}
use pxc_prop_strikes_back.Client.LoggingIn.{
  Happening, received, looks, ended, timed_out, wait, Sdl, refused, after_login, login_result,
  login,
}

-- The loop of `login` looks so many times, and the time is not up.
abbrev pub looking : ℕ → List Happening
looking n = replicate n (looks false)

pub wait-looking :
    (n : ℕ) (hs : List Happening) (s : Client)
    → s.is_on_login ≡ true
    → wait (looking n ++ hs) s ≡ wait hs s
unfolding wait
wait-looking zero hs s on = refl
wait-looking (suc n) hs s on = simp (on, wait-looking n hs s on)

pub wait-received :
    (i : Instruction) (hs : List Happening) (s t : Client)
    → execute false i s ≡ some t
    → wait (received i ∷ hs) s ≡ wait hs t
unfolding wait
wait-received i hs s t e = rw e refl

pub wait-ends :
    (late : Bool) (hs : List Happening) (s : Client)
    → s.is_on_login ≡ false
    → wait (looks late ∷ hs) s ≡ some (ended s)
unfolding wait
wait-ends late hs s off = simp off

-- The state in which `login` waits.
abbrev pub asked : Conn → List ℕ → List ℕ → Client → Client
asked link user password s =
    record_sent (login_request link (field user) (field password)) (record s { is_on_login = true })

pub login-waits :
    (sdl : Sdl) (hs : List Happening) (user password : List ℕ) (s : Client) (link : Conn)
    → s.login_link ≡ some link
    → login sdl hs user password s
      ≡ (wait hs (asked link user password s) >>= λ w. some (login_result sdl user password w))
unfolding login
login-waits sdl hs user password s link e = simp e

pub after_login-refused :
    (sdl : Sdl) (user password : List ℕ) (s : Client)
    → s.bad_log_on ≡ true
    → after_login sdl user password s ≡ refused s
unfolding after_login
after_login-refused sdl user password s wrong = simp wrong

-- After the answer, with a connection to the router.
abbrev pub answered : ℤ → ℤ → Conn → Client → Client
answered id token c s =
    record_sent (connect_request c id token)
      (router_connection c (record s { bad_log_on = false; user_id = id; token = token }))

-- What the answer leaves and sets.
abbrev Answered : ℤ → ℤ → Conn → Client → Client → Type 0
Answered id token c s t =
    (t.game ≡ s.game)
    × (t.is_on_login ≡ s.is_on_login)
    × (t.bad_log_on ≡ false)
    × (t.user_id ≡ id)
    × (t.token ≡ token)
    × (t.router ≡ some c)
    × (t.logged_in ≡ s.logged_in)

answered_lem :
    (id token : ℤ) (c : Conn) (s : Client) → Answered id token c s (answered id token c s)
unfolding router_connection
answered_lem id token c s = elim (Option-cases s.router) [
  | inl e ↦ simp e (refl, refl, refl, refl, refl, refl, refl)
  | inr (old, e) ↦ simp e (refl, refl, refl, refl, refl, refl, refl)
]

execute-answered :
    (id token : ℤ) (c : Conn) (s : Client)
    → execute false (login_answer (pos 0) id token (some c)) s ≡ some (answered id token c s)
unfolding execute login_request_received
execute-answered id token c s = refl

wait-late :
    (hs : List Happening) (s : Client)
    → s.is_on_login ≡ true
    → wait (looks true ∷ hs) s ≡ some (timed_out (record s { is_on_login = false }))
unfolding wait
wait-late hs s on = simp on

-- A client with a connection to the login server. Its login asks; while it waits, the answer arrives
-- with code 0 and the router can be connected, and then nothing more arrives until the time is up: the
-- login returns false, and the client has the number and token of the answer and the connection to the
-- router, and counts as logged in only if it did before.
pub login_unanswered :
    (sdl : Sdl) (a b : ℕ) (rest : List Happening) (user password : List ℕ) (s : Client)
    (link c : Conn) (id token : ℤ)
    → s.login_link ≡ some link
    → (t : Client) × (login sdl
          (looking a
            ++ received (login_answer (pos 0) id token (some c)) ∷ (looking b ++ looks true ∷ rest))
          user
          password
          s
        ≡ some (refused t))
      × (t.user_id ≡ id)
      × (t.token ≡ token)
      × (t.router ≡ some c)
      × (t.game ≡ s.game)
      × (t.logged_in ≡ s.logged_in)
login_unanswered sdl a b rest user password s link c id token e =
    let s1 = asked link user password s in
    let s2 = answered id token c s1 in
    let (same_game, same_on, right, same_id, same_token, same_router, same_logged) =
      answered_lem id token c s1 in
    let s3 : Client = record s2 { is_on_login = false } in
    let waited : wait
          (looking a
            ++ received (login_answer (pos 0) id token (some c)) ∷ (looking b ++ looks true ∷ rest))
          s1
        ≡ some (timed_out s3) =
      wait-looking a _ s1 refl
      ∙ wait-received (login_answer (pos 0) id token (some c)) _ s1 s2
          (execute-answered id token c s1)
      ∙ wait-looking b (looks true ∷ rest) s2 same_on
      ∙ wait-late rest s2 same_on in
    (
      s3,
      login-waits sdl _ user password s link e ∙ rw waited refl,
      same_id,
      same_token,
      same_router,
      same_game,
      same_logged,
    )
