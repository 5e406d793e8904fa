-- ===== src/Login/Served.antt =====
-- Sequences of requests to the login server, in the order in which the handlers hold the mutex
-- (servlogin/src/LoginRequest.cpp, LogoutRequest.cpp, ClientClosedConnection.cpp,
-- ControlConnection.cpp).
use pxc_prop_strikes_back.Base.{
  ℕ, ◌+◌, ◌≤◌, ◌<◌, ◌≡◌, ◌≢◌, ◌⊎◌, ap, refl, inl, inr, Bool, true, List, [], ◌∷◌, Option, none,
  some, ◌>>=◌, arith, ℤ, eq_int, eq_int_iff, find, Bool-cases, nat_key, int_key, bytes_key, length,
}
use pxc_prop_strikes_back.Login.Password.{Backend}
use pxc_prop_strikes_back.Login.Buffer.{validate_total, Answers}
use pxc_prop_strikes_back.Login.Validity.{IsValid, MayLogin, ControlUp}
use pxc_prop_strikes_back.Login.{
  Login, Conn, login_request, logout_request, call_on_close, control_connection_request, Unset,
}
use pxc_prop_strikes_back.Login.Requests.{
  logout_request_lem, logout_request_refused, call_on_close_lem, login_request_right,
  login_request_wrong, sent-IsValid,
}

-- What reaches the login server, from the network and from its own connections.
pub data Request : Type 0 where
  login : List ℕ → Unset → List ℕ → List ℕ → Conn → Request
  logout : ℤ → ℤ → Conn → Request
  closes : Conn → Request
  control : Conn → Request

unfoldable pub serve : Backend → (Conn → Bool) → Request → Login → Option Login
unfolding login_request logout_request call_on_close control_connection_request
serve b link (login stale u user pwd c) s = login_request b link stale u user pwd c s
serve b link (logout id token c) s = logout_request link id token c s
serve b link (closes c) s = call_on_close c s
serve b link (control c) s = some (control_connection_request c s)

unfoldable pub serve_all : Backend → (Conn → Bool) → List Request → Login → Option Login
unfolding serve
serve_all b link [] s = some s
serve_all b link (r ∷ rs) s = do t ← serve b link r s; serve_all b link rs t

-- The requests of well-behaved clients: names and passwords of the wire's size, a query that the
-- database answers, working links for the answer and to a connected balance server, one session on a
-- connection, and a logout over the client's own connection. A byte is spare behind `resultPwd`.
abbrev pub IsProper : Backend → (Conn → Bool) → Request → Login → Type 0
IsProper b link (login stale u user pwd c) s =
    (length user < 32)
    × (length pwd < 32)
    × (link c ≡ true)
    × MayLogin s user c
    × Answers b stale user pwd
    × ControlUp link s
IsProper b link (logout id token c) s =
    (link c ≡ true)
    × ControlUp link s
    × (find id s.tables.user_token_map ≡ some token
        → find c s.tables.connection_to_id_map ≡ some id)
IsProper b link (closes c) s = Unit {0}
IsProper b link (control c) s = Unit {0}

-- Every request of a sequence is proper when its turn comes.
abbrev pub AllProper : Backend → (Conn → Bool) → List Request → Login → Type 0
AllProper b link [] s = Unit {0}
AllProper b link (r ∷ rs) s =
    IsProper b link r s × ((t : Login) → serve b link r s ≡ some t → AllProper b link rs t)

-- What one served request guarantees.
abbrev pub Served : Login → Option Login → Type 0
Served s r = (t : Login) × (r ≡ some t) × IsValid t × (t.next_free_token ≤ s.next_free_token + 1)

pub owned : (o : Option ℤ) (token : ℤ) → (o ≡ some token) ⊎ (o ≢ some token)
owned none token = inr (λ e. cc)
owned (some held) token = elim (Bool-cases (eq_int held token)) [
  | inl e ↦ inl (ap some ((eq_int_iff held token).0 e))
  | inr e ↦ inr (λ p. ground (arith, eq_int_iff held token))
]

module _ (b : Backend) (link : Conn → Bool) where
  serve_login :
      (stale : List ℕ) (u : Unset) (user pwd : List ℕ) (c : Conn) (s : Login)
      → IsValid s
      → s.next_free_token + 1 < 4294967296
      → IsProper b link (login stale u user pwd c) s
      → Served s (serve b link (login stale u user pwd c) s)
  unfolding serve
  serve_login stale u user pwd c s v room (short_user, short_pwd, up, may, answers, control_up) =
      let (valid, e) = validate_total b stale user pwd short_user short_pwd answers in
      elim (Bool-cases valid) [
        | inl right ↦
            let r =
              login_request_right b link stale u user pwd c s up control_up v room may
                (rw right at e) in
            (_, r.1, sent-IsValid _ r.2, omega (arith, r.3))
        | inr wrong ↦ (
          _,
          login_request_wrong b link stale u user pwd c s up control_up (rw wrong at e),
          sent-IsValid _ v,
          omega arith,
        )
      ]

  serve_logout :
      (id token : ℤ) (c : Conn) (s : Login)
      → IsValid s
      → IsProper b link (logout id token c) s
      → Served s (serve b link (logout id token c) s)
  unfolding serve
  serve_logout id token c s v (up, control_up, own) =
      elim (owned (find id s.tables.user_token_map) token) [
        | inl right ↦
            let (user, k) = v.consistent.of_owner c id (own right) in
            let r = logout_request_lem link s id user c v k up control_up in
            let same : token ≡ id = ground (arith, k.token) in
            (r.0, rw same r.1, r.2, omega (arith, r.3))
        | inr wrong ↦
            (_, logout_request_refused link s id token c up wrong, sent-IsValid _ v, omega arith)
      ]

  -- Each proper request is served without a fault and keeps the tables valid.
  pub serve-IsValid :
      (r : Request) (s : Login)
      → IsValid s
      → s.next_free_token + 1 < 4294967296
      → IsProper b link r s
      → Served s (serve b link r s)
  unfolding serve
  serve-IsValid (login stale u user pwd c) s v room p = serve_login stale u user pwd c s v room p
  serve-IsValid (logout id token c) s v room p = serve_logout id token c s v p
  serve-IsValid (closes c) s v room p =
      let r = call_on_close_lem s c v in (r.0, r.1, r.2, omega (arith, r.3))
  serve-IsValid (control c) s v room p =
      (_, refl, record { consistent = v.consistent; issued = v.issued }, omega arith)

  -- A sequence of requests on valid tables, each proper where it is served, and with numbers left
  -- for all of them: no handler faults, and the tables are valid at the end.
  pub serve_all-IsValid :
      (rs : List Request) (s : Login)
      → IsValid s
      → s.next_free_token + length rs < 4294967296
      → AllProper b link rs s
      → (t : Login) × (serve_all b link rs s ≡ some t) × IsValid t
  unfolding serve_all
  serve_all-IsValid [] s v room p = (s, refl, v)
  serve_all-IsValid (r ∷ rs) s v room p =
      let (t, e, w, le) = serve-IsValid r s v (omega arith) p.0 in
      let (end, e', w') = serve_all-IsValid rs t w (omega arith) (p.1 t e) in (end, rw e e', w')
