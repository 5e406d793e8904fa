-- ===== src/Login/Refinement.antt =====
-- The login server's tables keep what the contract promises (servlogin/src/LoginRequest.cpp,
-- LogoutRequest.cpp, ClientClosedConnection.cpp, ControlConnection.cpp).
use mathlib.Core.Path.{fun_ext}
use pxc_prop_strikes_back.Base.{
  ℕ, ◌+◌, ◌<◌, ◌≤◌, ◌≡◌, ◌≢◌, ◌∙◌, refl, sym, ap, inl, inr, ℤ, eq_int, eq_int_iff, to_int, Bool,
  true, false, List, [], ◌∷◌, Option, some, find, Bool-cases, Option-cases, int_key, nat_key,
  bytes_key, arith, length,
}
use pxc_prop_strikes_back.Login.{
  Login, Conn, login_request, call_on_close, Unset, new_client, router_ip, router_port,
}
use pxc_prop_strikes_back.Login.Password.{Backend, validate}
use pxc_prop_strikes_back.Login.Buffer.{validate_total}
use pxc_prop_strikes_back.Login.Requests.{
  answered, closed, forget_session, logout_request_lem, logout_request_refused,
}
use pxc_prop_strikes_back.Login.Validity.{IsValid, to_control_lem}
use pxc_prop_strikes_back.Login.Contract.{
  Promise, drop_id, promised, promised_all, session_at, abstract,
}
use pxc_prop_strikes_back.Login.Served.{
  Request, login, logout, closes, control, serve, serve_all, serve-IsValid, owned, IsProper,
  AllProper,
}
use pxc_prop_strikes_back.Login.Abstraction.{
  session_at-IsSession, session_at-without, drop_conn-session, drop_conn-absent, entered,
}

-- What a served request leaves is what the contract has.
abbrev Refines : Promise → Option Login → Type 0
Refines p r =
    (t : Login) × (r ≡ some t)
    × ((j : ℤ) → session_at t.tables j ≡ p.sessions j)
    × (t.next_free_token ≡ p.next)

module _ (b : Backend) (link : Conn → Bool) (s : Login) (v : IsValid s) where
  login-Refines :
      (stale : List ℕ) (u : Unset) (user pwd : List ℕ) (c : Conn)
      → s.next_free_token + 1 < 4294967296
      → IsProper b link (login stale u user pwd c) s
      → Refines
          (promised b (login stale u user pwd c) (abstract s))
          (serve b link (login stale u user pwd c) s)
  unfolding serve promised login_request
  login-Refines stale u user pwd c room (short_user, short_pwd, up, may, answers, control_up) =
      let (valid, e) = validate_total b stale user pwd short_user short_pwd answers in
      elim (Bool-cases valid) [
        | inl right ↦
            let n = to_int s.next_free_token in
            let (t, f, (same, next, kept)) = entered s user c v room may link control_up in
            let ok : validate b stale user pwd ≡ some true = rw right at e in
            (
              answered c 0 router_ip router_port (to_int s.next_free_token)
                  (to_int s.next_free_token) t,
              rw (ok, f, to_control_lem link (λ k. new_client k n n) t kept, up) refl,
              λ j. rw ok (same j),
              rw ok next,
            )
        | inr wrong ↦
            let bad : validate b stale user pwd ≡ some false = rw wrong at e in
            (
              answered c 1 u.router_ip u.router_port u.client_id u.token s,
              rw (bad, to_control_lem link (λ k. new_client k u.client_id u.token) s control_up, up)
                  refl,
              λ j. rw bad refl,
              rw bad refl,
            )
      ]

  -- A number whose token is not the one that is given has no session under that number.
  drop_id-absent :
      (id : ℤ)
      → find id s.tables.user_token_map ≢ some id
      → (j : ℤ) → session_at s.tables j ≡ drop_id id (session_at s.tables) j
  drop_id-absent id missing j = elim (Bool-cases (eq_int id j)) [
    | inr other ↦ rw other refl
    | inl here ↦ elim (session_at-IsSession s.tables j v.consistent) [
      | inl e ↦ rw (here, e) refl
      | inr (u, d, k) ↦
          let same : id ≡ j = (eq_int_iff id j).0 here in absurd (missing (rw same k.token))
    ]
  ]

  logout-Refines :
      (id token : ℤ) (c : Conn)
      → IsProper b link (logout id token c) s
      → Refines (promised b (logout id token c) (abstract s)) (serve b link (logout id token c) s)
  unfolding serve promised
  logout-Refines id token c (up, control_up, own) =
      elim (owned (find id s.tables.user_token_map) token) [
        | inl right ↦
            let (user, k) = v.consistent.of_owner c id (own right) in
            let (t, e, _, next, tables, _) =
              logout_request_lem link s id user c v k up control_up in
            let same : token ≡ id = ground (arith, k.token) in
            let here : eq_int id token ≡ true = (eq_int_iff id token).1 (sym same) in
            (
              t,
              rw same e,
              λ j. rw (here, tables) (session_at-without s.tables id user c j),
              rw here next,
            )
        | inr wrong ↦ elim (Bool-cases (eq_int id token)) [
          | inl here ↦
              let same : id ≡ token = (eq_int_iff id token).0 here in
              (
                _,
                logout_request_refused link s id token c up wrong,
                λ j. rw here (drop_id-absent id (λ e. wrong (e ∙ ap some same)) j),
                rw here refl,
              )
          | inr other ↦ (
            _,
            logout_request_refused link s id token c up wrong,
            λ j. rw other refl,
            rw other refl,
          )
        ]
      ]

  closes-Refines :
      (c : Conn) → Refines (promised b (closes c) (abstract s)) (serve b link (closes c) s)
  unfolding serve promised call_on_close
  closes-Refines c = elim (Option-cases (find c s.tables.connection_to_id_map)) [
    | inl e ↦ (s, rw e refl, λ j. sym (drop_conn-absent s.tables v.consistent j c e), refl)
    | inr (id, e) ↦
        let (user, k) = v.consistent.of_owner c id e in
        (
          closed id user c s,
          rw (e, k.name, forget_session s v id user c k) refl,
          λ j.
              session_at-without s.tables id user c j
              ∙ sym (drop_conn-session s.tables v.consistent j id user c k),
          refl,
        )
  ]

serve-Refines :
    (b : Backend) (link : Conn → Bool) (r : Request) (s : Login)
    → IsValid s
    → s.next_free_token + 1 < 4294967296
    → IsProper b link r s
    → Refines (promised b r (abstract s)) (serve b link r s)
unfolding serve promised
serve-Refines b link (login stale u user pwd c) s v room p =
    login-Refines b link s v stale u user pwd c room p
serve-Refines b link (logout id token c) s v room p = logout-Refines b link s v id token c p
serve-Refines b link (closes c) s v room p = closes-Refines b link s v c
serve-Refines b link (control c) s v room p = (_, refl, λ j. refl, refl)

-- The same with valid tables, as one equation.
serve-abstract :
    (b : Backend) (link : Conn → Bool) (r : Request) (s : Login)
    → IsValid s
    → s.next_free_token + 1 < 4294967296
    → IsProper b link r s
    → (t : Login) × (serve b link r s ≡ some t)
      × IsValid t
      × (t.next_free_token ≤ s.next_free_token + 1)
      × (abstract t ≡ promised b r (abstract s))
serve-abstract b link r s v room p =
    let (t, e, sessions, next) = serve-Refines b link r s v room p in
    let (t', e', w, le) = serve-IsValid b link r s v room p in
    let one : t' ≡ t = ground arith in
    (t, e, rw one at w, rw one at le, λ i. record { sessions = fun_ext sessions i; next = next i })

-- A sequence of requests on valid tables, each proper where it is served, and with numbers left for
-- all of them: the login server serves them, and its tables then hold the sessions, and the next
-- number, that the contract has after the same requests on the sessions that they held before.
pub serve_all-refines :
    (b : Backend) (link : Conn → Bool) (rs : List Request) (s : Login)
    → IsValid s
    → s.next_free_token + length rs < 4294967296
    → AllProper b link rs s
    → (t : Login) × (serve_all b link rs s ≡ some t) × (abstract t ≡ promised_all b rs (abstract s))
unfolding serve_all promised_all
serve_all-refines b link [] s v room p = (s, refl, refl)
serve_all-refines b link (r ∷ rs) s v room p =
    let (t, e, w, le, step) = serve-abstract b link r s v (omega arith) p.0 in
    let (end, h, k) = serve_all-refines b link rs t w (omega arith) (p.1 t e) in
    (end, rw e h, k ∙ ap (promised_all b rs) step)
