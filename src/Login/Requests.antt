-- ===== src/Login/Requests.antt =====
-- servlogin: every request that the login server handles, alone and in sequence. The callbacks run
-- one after the other, since each holds `loginMutex`.
use pxc_prop_strikes_back.Base.{
  ℕ, ◌+◌, ◌<◌, ◌≡◌, ◌≢◌, is_some, refl, inl, inr, Bool, true, false, List, [], ◌∷◌, ◌++◌, none,
  some, if◌then◌else◌, arith, ℤ, eq_int, eq_int_iff, u32, to_int, find, find-erase-some, find-erase,
  Option-cases, nat_key, int_key, bytes_key,
}
use pxc_prop_strikes_back.Login.Password.{Backend, validate}
use pxc_prop_strikes_back.Login.Sessions.{
  IsSession, without, forget_tables-eq-without, without-IsConsistent,
}
use pxc_prop_strikes_back.Login.Validity.{IsValid, MayLogin, ControlUp, to_control_lem}
use pxc_prop_strikes_back.Login.Accepting.{accept_login_lem}
use pxc_prop_strikes_back.Login.{
  Login, Conn, Sent, forget, login_request, logout_request, call_on_close, Unset, client_disconnect,
  logout_answer, initialize_login, new_client, login_answer, router_ip, router_port,
}

-- The state after a session is dropped.
abbrev pub closed : ℤ → List ℕ → Conn → Login → Login
closed id user c s = record s {
  tables = without id user c s.tables;
  users_connected = u32 (s.users_connected + 4294967295);
}

module _ (s : Login) (v : IsValid s) (id : ℤ) (user : List ℕ) (c : Conn) where
  pub forget_session : IsSession s.tables id user c → forget id user c s ≡ some (closed id user c s)
  unfolding forget
  forget_session k = rw (forget_tables-eq-without s.tables id user c k)

  closed-IsValid : IsSession s.tables id user c → IsValid (closed id user c s)
  closed-IsValid k = record {
    consistent = without-IsConsistent s.tables v.consistent k;
    issued = λ j t e. v.issued j t (find-erase-some id j s.tables.user_token_map e).1;
  }

-- Only the log of what was sent differs.
pub sent-IsValid : {s : Login} (m : List Sent) → IsValid s → IsValid (record s { sent = m })
sent-IsValid m v = record { consistent = v.consistent; issued = v.issued }

-- A client that has a session in valid tables and asks over its own connection, with its token and
-- a link that is up, while the link of a connected balance server is up too, is logged out: its number, its name and its connection leave the tables,
-- which stay valid.
pub logout_request_lem :
    (link : Conn → Bool) (s : Login) (id : ℤ) (user : List ℕ) (c : Conn)
    → IsValid s
    → IsSession s.tables id user c
    → link c ≡ true
    → ControlUp link s
    → (t : Login) × (logout_request link id id c s ≡ some t)
      × IsValid t
      × (t.next_free_token ≡ s.next_free_token)
      × (t.tables ≡ without id user c s.tables)
      × (t.sent
          ≡ (s.sent
              ++ (if s.control_connected
                  then client_disconnect s.control_connection id id ∷ []
                  else []))
            ++ logout_answer c 0 ∷ [])
unfolding logout_request
logout_request_lem link s id user c v k up control = (
  record (closed id user c s) { sent = _ },
  rw
      (
        k.token,
        (eq_int_iff id id).1 refl,
        k.name,
        forget_session s v id user c k,
        to_control_lem link (λ d. client_disconnect d id id) (closed id user c s) control,
        up,
      )
      refl,
  sent-IsValid _ (closed-IsValid s v id user c k),
  refl,
  refl,
  refl,
)

-- A logout with an unknown client or with another token than the client's, over a link that is up,
-- changes no table; the answer says which of the two it was.
pub logout_request_refused :
    (link : Conn → Bool) (s : Login) (id token : ℤ) (c : Conn)
    → link c ≡ true
    → find id s.tables.user_token_map ≢ some token
    → logout_request link id token c s
      ≡ some (record s {
        sent =
            s.sent
            ++ logout_answer c (if is_some (find id s.tables.user_token_map) then 2 else 1) ∷ [];
      })
unfolding logout_request
logout_request_refused link s id token c up wrong =
    elim (Option-cases (find id s.tables.user_token_map)) [
      | inl e ↦ rw (e, up)
      | inr (held, e) ↦
          let other : eq_int held token ≡ false = ground (arith, eq_int_iff held token) in
          rw (e, other, up)
    ]

-- A connection that closes, on valid tables: its session leaves them if it has one, they stay
-- valid, and nothing is sent.
pub call_on_close_lem :
    (s : Login) (c : Conn)
    → IsValid s
    → (t : Login) × (call_on_close c s ≡ some t)
      × IsValid t
      × (t.next_free_token ≡ s.next_free_token)
      × (find c t.tables.connection_to_id_map ≡ none)
      × (t.sent ≡ s.sent)
unfolding call_on_close
call_on_close_lem s c v = elim (Option-cases (find c s.tables.connection_to_id_map)) [
  | inl e ↦ (s, rw e, v, refl, e, refl)
  | inr (id, e) ↦
      let (user, k) = v.consistent.of_owner c id e in
      (
        closed id user c s,
        rw (e, k.name, forget_session s v id user c k),
        closed-IsValid s v id user c k,
        refl,
        ground (arith, find-erase c c s.tables.connection_to_id_map),
        refl,
      )
]

-- What follows the tables' part of a login: the balance server is told, and the client answered.
abbrev pub answered : Conn → ℕ → List ℕ → List ℕ → ℤ → ℤ → Login → Login
answered c code ip port id token s = record s {
  sent =
      (s.sent
        ++ (if s.control_connected then new_client s.control_connection id token ∷ [] else []))
      ++ login_answer c code ip port id token ∷ [];
}

module _ (b : Backend) (link : Conn → Bool) (stale : List ℕ) (u : Unset) (user pwd : List ℕ)
    (c : Conn) (s : Login) (up : link c ≡ true) (control : ControlUp link s) where
  -- A login with a right password on valid tables, with numbers left, a connection that has no
  -- session of another user, and links to it and to a connected balance server that are up: the session is in the tables, they stay valid,
  -- and client and balance server get its number.
  pub login_request_right :
      IsValid s
      → s.next_free_token + 1 < 4294967296
      → MayLogin s user c
      → validate b stale user pwd ≡ some true
      → (t : Login) × (login_request b link stale u user pwd c s
          ≡ some (
              answered c 0 router_ip router_port
                (to_int s.next_free_token)
                (to_int s.next_free_token)
                t))
        × IsValid t
        × (t.next_free_token ≡ s.next_free_token + 1)
        × IsSession t.tables (to_int s.next_free_token) user c
  unfolding login_request
  login_request_right v room may right =
      let r = accept_login_lem link s user c control v room may in
      let n = to_int s.next_free_token in
      let kept : ControlUp link r.0 = r.2.3 in
      (
        r.0,
        rw (right, r.1, to_control_lem link (λ k. new_client k n n) r.0 kept, up) refl,
        r.2.0,
        r.2.2,
        r.2.1,
      )

  -- A wrong password, over links that are up, changes no table, but a balance server that is
  -- connected is told of a new client all the same, with the numbers that the handler never set;
  -- the answer has code 1.
  pub login_request_wrong :
      validate b stale user pwd ≡ some false
      → login_request b link stale u user pwd c s
        ≡ some (answered c 1 u.router_ip u.router_port u.client_id u.token s)
  unfolding login_request
  login_request_wrong wrong =
      rw (wrong, to_control_lem link (λ k. new_client k u.client_id u.token) s control, up) refl

-- A server that has just started has valid tables.
pub initialize_login-IsValid : (stale : Conn) → IsValid (initialize_login stale)
unfolding initialize_login find
initialize_login-IsValid stale = record {
  consistent = record {
    of_token = λ i t e. absurd (ground arith);
    of_user = λ u i e. absurd (ground arith);
    of_name = λ i u e. absurd (ground arith);
    of_conn = λ i c e. absurd (ground arith);
    of_owner = λ c i e. absurd (ground arith);
  };
  issued = λ i t e. absurd (ground arith);
}
