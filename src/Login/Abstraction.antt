-- ===== src/Login/Abstraction.antt =====
-- The sessions that the login server's tables hold, and what an accepted login does to them
-- (servlogin/src/LoginRequest.cpp).
use pxc_prop_strikes_back.Base.{
  ℕ, ◌+◌, ◌<◌, ◌≡◌, ◌∙◌, Bool, refl, sym, ap, inl, inr, ◌⊎◌, ==_iff, ℤ, eq_int, eq_int_iff, to_int,
  eq_bytes_iff, List, none, some, if◌then◌else◌, find, find-put, find-erase, Bool-cases,
  Option-cases, int_key, nat_key, bytes_key, arith, Map,
}
use pxc_prop_strikes_back.Login.{
  Login, Tables, Conn, accept_login, drop_old, register, register_tables, issue,
}
use pxc_prop_strikes_back.Login.Sessions.{
  IsSession, IsConsistent, IsFresh, without, with_session, register_tables_fresh,
  without-IsConsistent,
}
use pxc_prop_strikes_back.Login.Validity.{
  IsValid, MayLogin, ControlUp, fresh_token, dropped, dropped-IsFresh, told, drop_old-eq-told,
}
use pxc_prop_strikes_back.Login.Contract.{
  drop_user, drop_conn, drop_id, enter, session_at, abstract,
}

-- A session of the tables, as the abstraction shows it.
pub session_at-some :
    {t : Tables} {id : ℤ} {user : List ℕ} {c : Conn}
    → IsSession t id user c
    → session_at t id ≡ some (user, c)
session_at-some k = rw (k.name, k.conn) refl

-- What the abstraction shows is a session.
pub session_at-IsSession :
    (t : Tables) (j : ℤ)
    → IsConsistent t
    → (session_at t j ≡ none) ⊎ ((u : List ℕ) × (d : Conn) × IsSession t j u d)
session_at-IsSession t j v = elim (Option-cases (find j t.id_to_user_map)) [
  | inl e ↦ inl (rw e refl)
  | inr (u, e) ↦ let (d, k) = v.of_name j u e in inr (u, d, k)
]

-- The tables with one session more, and with one less.
session_at-with_session :
    (b : Tables) (id : ℤ) (user : List ℕ) (c : Conn) (j : ℤ)
    → session_at (with_session id user c b) j
      ≡ (if eq_int id j then some (user, c) else session_at b j)
session_at-with_session b id user c j = elim (Bool-cases (eq_int id j)) [
  | inl e ↦ rw (find-put id j user b.id_to_user_map, find-put id j c b.id_to_connection_map, e) refl
  | inr e ↦ rw (find-put id j user b.id_to_user_map, find-put id j c b.id_to_connection_map, e) refl
]

pub session_at-without :
    (s : Tables) (id : ℤ) (user : List ℕ) (c : Conn) (j : ℤ)
    → session_at (without id user c s) j ≡ drop_id id (session_at s) j
session_at-without s id user c j = elim (Bool-cases (eq_int id j)) [
  | inl e ↦ rw (find-erase id j s.id_to_user_map, find-erase id j s.id_to_connection_map, e) refl
  | inr e ↦ rw (find-erase id j s.id_to_user_map, find-erase id j s.id_to_connection_map, e) refl
]

module _ (s : Tables) (v : IsConsistent s) (j : ℤ) where
  -- Dropping a user, a connection or a number drops the same session.
  drop_user-session :
      (id : ℤ) (user : List ℕ) (c : Conn)
      → IsSession s id user c
      → drop_user user (session_at s) j ≡ drop_id id (session_at s) j
  drop_user-session id user c h = elim (session_at-IsSession s j v) [
    | inl e ↦ rw e (ground arith)
    | inr (u, d, k) ↦
        rw (session_at-some k) (
          ground
            (arith, eq_int_iff id j, eq_bytes_iff u user, h.by_user, k.by_user, h.name, k.name))
  ]

  pub drop_conn-session :
      (id : ℤ) (user : List ℕ) (c : Conn)
      → IsSession s id user c
      → drop_conn c (session_at s) j ≡ drop_id id (session_at s) j
  drop_conn-session id user c h = elim (session_at-IsSession s j v) [
    | inl e ↦ rw e (ground arith)
    | inr (u, d, k) ↦
        rw (session_at-some k)
          (ground (arith, eq_int_iff id j, ==_iff d c, h.owner, k.owner, h.conn, k.conn))
  ]

  drop_user-absent :
      (user : List ℕ)
      → find user s.user_to_id_map ≡ none
      → drop_user user (session_at s) j ≡ session_at s j
  drop_user-absent user e = elim (session_at-IsSession s j v) [
    | inl f ↦ rw f refl
    | inr (u, d, k) ↦ rw (session_at-some k) (ground (arith, eq_bytes_iff u user, k.by_user))
  ]

  pub drop_conn-absent :
      (c : Conn)
      → find c s.connection_to_id_map ≡ none
      → drop_conn c (session_at s) j ≡ session_at s j
  drop_conn-absent c e = elim (session_at-IsSession s j v) [
    | inl f ↦ rw f refl
    | inr (u, d, k) ↦ rw (session_at-some k) (ground (arith, ==_iff d c, k.owner))
  ]

-- The session that `register` adds to tables without the user, the number and the connection.
registered_sessions :
    (b : Tables) (id : ℤ) (user : List ℕ) (c : Conn) (m : Map ℤ ℤ) (j : ℤ)
    → IsFresh b id user c
    → IsConsistent b
    → session_at (register_tables id user c (record b { user_token_map = m })) j
      ≡ (if eq_int id j then some (user, c) else session_at b j)
registered_sessions b id user c m j f v =
    rw (register_tables_fresh b id user c f v m) (session_at-with_session b id user c j)

-- What a login leaves, as the contract has it.
abbrev pub Entered : (Conn → Bool) → List ℕ → Conn → Login → Login → Type 0
Entered link user c s t =
    ((j : ℤ) → session_at t.tables j ≡ (enter user c (abstract s)).sessions j)
    × (t.next_free_token ≡ s.next_free_token + 1)
    × ControlUp link t

module _ (s : Login) (user : List ℕ) (c : Conn) (v : IsValid s)
    (room : s.next_free_token + 1 < 4294967296) (may : MayLogin s user c) (link : Conn → Bool)
    (control : ControlUp link s) where
  entered_new :
      find user s.tables.user_to_id_map ≡ none
      → (t : Login) × (accept_login link user c s ≡ some t) × Entered link user c s t
  unfolding accept_login drop_old issue register
  entered_new absent =
      let next = to_int s.next_free_token in
      let no_owner : find c s.tables.connection_to_id_map ≡ none =
        elim (Option-cases (find c s.tables.connection_to_id_map)) [
          | inl e ↦ e
          | inr (id, e) ↦ ground (arith, may id e)
        ] in
      let fresh : IsFresh s.tables next user c = record {
        no_token = fresh_token s v room;
        no_user = absent;
        no_owner = no_owner;
      } in
      (
        register next user c (record s { tables = issue next s.tables }),
        rw (absent, drop_old) refl,
        (
          λ j.
              registered_sessions s.tables next user c _ j fresh v.consistent
              ∙ ap (λ o. if eq_int next j then some (user, c) else o)
                  (sym (drop_user-absent s.tables v.consistent j user absent)),
          omega arith,
          control,
        ),
      )

  entered_again :
      (old : ℤ) (d : Conn)
      → IsSession s.tables old user d
      → (t : Login) × (accept_login link user c s ≡ some t) × Entered link user c s t
  unfolding accept_login register
  entered_again old d k =
      let next = to_int s.next_free_token in
      let b : Tables = dropped s user v room old d k in
      (
        register next user c (told s user v room old d k),
        rw (drop_old-eq-told s user v room old d k link control) refl,
        (
          λ j.
              registered_sessions b next user c _ j (dropped-IsFresh s user v room old d k c may)
                (without-IsConsistent s.tables v.consistent k)
              ∙ ap (λ o. if eq_int next j then some (user, c) else o)
                  (session_at-without s.tables old user d j
                    ∙ sym (drop_user-session s.tables v.consistent j old user d k)),
          omega arith,
          control,
        ),
      )

  pub entered : (t : Login) × (accept_login link user c s ≡ some t) × Entered link user c s t
  entered = elim (Option-cases (find user s.tables.user_to_id_map)) [
    | inl e ↦ entered_new e
    | inr (old, e) ↦ let (d, k) = v.consistent.of_user user old e in entered_again old d k
  ]
