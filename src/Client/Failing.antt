-- ===== src/Client/Failing.antt =====
-- Logins that fail, or should (cliente/src/Client.cpp, InstLogin.cpp, InstRouter.cpp).
use pxc_prop_strikes_back.Base.{
  ◌≡◌, ◌≢◌, refl, ap, ◌∙◌, ℕ, ℤ, pos, Bool, true, false, List, ◌∷◌, ◌++◌, Option, some, eq_int,
  eq_int_iff, arith,
}
use pxc_prop_strikes_back.Client.State.{Conn, login_answer, connect_client, Client}
use pxc_prop_strikes_back.Client.Instructions.{
  execute, login_request_received, connect_client_received,
}
use pxc_prop_strikes_back.Client.LoggingIn.{
  Happening, received, looks, ended, wait, Sdl, refused, login,
}
use pxc_prop_strikes_back.Client.Answered.{
  looking, asked, wait-looking, wait-received, wait-ends, login-waits, after_login-refused,
}

-- An answer with another code, before the time is up: the login fails, and the client has the game,
-- the number, the token and the router that it had.
pub login_wrong :
    (sdl : Sdl) (a : ℕ) (late : Bool) (rest : List Happening) (user password : List ℕ) (s : Client)
    (link : Conn) (code id token : ℤ) (dialled : Option Conn)
    → s.login_link ≡ some link
    → code ≢ pos 0
    → (t : Client) × (login sdl
          (looking a ++ received (login_answer code id token dialled) ∷ looks late ∷ rest)
          user
          password
          s
        ≡ some (refused t))
      × (t.game ≡ s.game)
      × (t.user_id ≡ s.user_id)
      × (t.token ≡ s.token)
      × (t.router ≡ s.router)
      × (t.logged_in ≡ s.logged_in)
unfolding execute login_request_received
login_wrong sdl a late rest user password s link code id token dialled e wrong =
    let s1 = asked link user password s in
    let t : Client = record s1 { bad_log_on = true; is_on_login = false } in
    let not_zero : eq_int code (pos 0) ≡ false = ground (arith, eq_int_iff code (pos 0)) in
    let waited : wait
          (looking a ++ received (login_answer code id token dialled) ∷ looks late ∷ rest) s1
        ≡ some (ended t) =
      wait-looking a _ s1 refl
      ∙ wait-received (login_answer code id token dialled) _ s1 t (rw not_zero refl)
      ∙ wait-ends late rest t refl in
    (
      t,
      login-waits sdl _ user password s link e
          ∙ rw waited (ap some (after_login-refused sdl user password t refl)),
      refl,
      refl,
      refl,
      refl,
      refl,
    )

-- The time is up before anything arrives: the login fails, and what the router answers later changes
-- nothing, whichever thread executes it.
pub login_late :
    (sdl : Sdl) (a : ℕ) (rest : List Happening) (user password : List ℕ) (s : Client) (link : Conn)
    → s.login_link ≡ some link
    → (t : Client) × (login sdl (looking a ++ looks true ∷ rest) user password s ≡ some (refused t))
      × (t.game ≡ s.game)
      × ((held : Bool) (id zone : ℤ) → execute held (connect_client id zone) t ≡ some t)
unfolding wait execute connect_client_received
login_late sdl a rest user password s link e =
    let s1 = asked link user password s in
    let t : Client = record s1 { is_on_login = false } in
    (
      t,
      login-waits sdl _ user password s link e
          ∙ rw (wait-looking a (looks true ∷ rest) s1 refl) refl,
      refl,
      λ held id zone. ground arith,
    )
