-- ===== src/Login/Accepting.antt =====
-- What accepting a login does (servlogin/src/LoginRequest.cpp).
use pxc_prop_strikes_back.Base.{
  ℕ, ◌+◌, ◌<◌, ◌≡◌, Bool, ap, refl, inl, inr, List, [], ◌∷◌, ◌++◌, none, some, if◌then◌else◌, arith,
  ℤ, eq_int_iff, to_int, Map, find, put, insert, insert_fresh, find-erase, Option-cases, nat_key,
  int_key, bytes_key,
}
use pxc_prop_strikes_back.Login.Sessions.{IsSession, IsConsistent, IsFresh, without-IsConsistent}
use pxc_prop_strikes_back.Login.{
  Login, Tables, Conn, drop_old, register, register_tables, issue, accept_login, client_disconnect,
}
use pxc_prop_strikes_back.Login.Validity.{
  IsValid, MayLogin, ControlUp, Accepted, fresh_token, registered, registered-IsValid,
  registered-IsSession, dropped, dropped-IsFresh, find-erase-insert, dropped-issued, told,
  drop_old-eq-told,
}

module _ (s : Login) (user : List ℕ) (c : Conn) (v : IsValid s)
    (room : s.next_free_token + 1 < 4294967296) (may : MayLogin s user c) (link : Conn → Bool)
    (control : ControlUp link s) where
  -- A user with no session.
  accept_login_new :
      find user s.tables.user_to_id_map ≡ none
      → (t : Login) × (accept_login link user c s ≡ some t) × Accepted link user c s t
  unfolding accept_login drop_old issue
  accept_login_new absent = (
    registered s s.tables user c room fresh v.consistent v.issued m same,
    rw (absent, drop_old) refl,
    (
      registered-IsValid s s.tables user c room fresh v.consistent v.issued m same,
      registered-IsSession s s.tables user c room fresh v.consistent v.issued m same,
      unfold register in omega arith,
      unfold register in control,
    ),
  )
    where
      m : Map ℤ ℤ
      m = insert (to_int s.next_free_token) (to_int s.next_free_token) s.tables.user_token_map

      no_owner : find c s.tables.connection_to_id_map ≡ none
      no_owner = elim (Option-cases (find c s.tables.connection_to_id_map)) [
        | inl e ↦ e
        | inr (id, e) ↦ ground (arith, may id e)
      ]

      fresh : IsFresh s.tables (to_int s.next_free_token) user c
      fresh = record { no_token = fresh_token s v room; no_user = absent; no_owner = no_owner }

      same :
          (j : ℤ)
          → find j m
            ≡ find j
                (put (to_int s.next_free_token) (to_int s.next_free_token) s.tables.user_token_map)
      same j = ap (find j) (insert_fresh _ _ s.tables.user_token_map (fresh_token s v room))

  -- A user with a session: it is dropped first, its number is gone, and the balance server is told.
  accept_login_again :
      (old : ℤ)
      → find user s.tables.user_to_id_map ≡ some old
      → (t : Login) × (accept_login link user c s ≡ some t)
        × Accepted link user c s t
        × (find old t.tables.user_token_map ≡ none)
        × (t.sent
            ≡ s.sent
              ++ (if s.control_connected
                  then client_disconnect s.control_connection old old ∷ []
                  else []))
  unfolding accept_login
  accept_login_again old known = (
    registered (told s user v room old d k) b user c room fresh consistent issued _
        (find-erase-insert s user v room old d k),
    rw (drop_old-eq-told s user v room old d k link control),
    (
      registered-IsValid (told s user v room old d k) b user c room fresh consistent issued _
          (find-erase-insert s user v room old d k),
      registered-IsSession (told s user v room old d k) b user c room fresh consistent issued _
          (find-erase-insert s user v room old d k),
      unfold register in omega arith,
      unfold register in control,
    ),
    unfold register register_tables in
        ground (
          arith,
          find-erase old old (
              insert (to_int s.next_free_token) (to_int s.next_free_token) s.tables.user_token_map),
          eq_int_iff old old,
        ),
    unfold register in refl,
  )
    where
      d : Conn
      d = (v.consistent.of_user user old known).0

      k : IsSession s.tables old user d
      k = (v.consistent.of_user user old known).1

      b : Tables
      b = dropped s user v room old d k

      fresh : IsFresh b (to_int s.next_free_token) user c
      fresh = dropped-IsFresh s user v room old d k c may

      consistent : IsConsistent b
      consistent = without-IsConsistent s.tables v.consistent k

      issued :
          (i t : ℤ)
          → find i b.user_token_map ≡ some t
          → (n : ℕ) × (n < s.next_free_token) × (i ≡ to_int n)
      issued = dropped-issued s user v room old d k

-- On valid tables, with a control link that is not down, numbers left and a connection that has no session of another user, a login
-- is accepted without a fault: the tables are valid, the next number is used up, and the new
-- session is in the tables.
pub accept_login_lem :
    (link : Conn → Bool) (s : Login) (user : List ℕ) (c : Conn)
    → ControlUp link s
    → IsValid s
    → s.next_free_token + 1 < 4294967296
    → MayLogin s user c
    → (t : Login) × (accept_login link user c s ≡ some t) × Accepted link user c s t
accept_login_lem link s user c control v room may =
    elim (Option-cases (find user s.tables.user_to_id_map)) [
      | inl e ↦ accept_login_new s user c v room may link control e
      | inr (old, e) ↦
          let r = accept_login_again s user c v room may link control old e in (r.0, r.1, r.2)
    ]

-- A user that has a session logs in again, on valid tables, with numbers left and a connection
-- that has no session of another user: the old number is no longer valid, the user has the next
-- one, and a balance server that is connected is told that the old client left.
pub accept_login-replaces :
    (link : Conn → Bool) (s t : Login) (user : List ℕ) (c : Conn) (old : ℤ)
    → ControlUp link s
    → IsValid s
    → s.next_free_token + 1 < 4294967296
    → MayLogin s user c
    → find user s.tables.user_to_id_map ≡ some old
    → accept_login link user c s ≡ some t
    → (find old t.tables.user_token_map ≡ none)
      × (find user t.tables.user_to_id_map ≡ some (to_int s.next_free_token))
      × (t.sent
          ≡ s.sent
            ++ (if s.control_connected
                then client_disconnect s.control_connection old old ∷ []
                else []))
accept_login-replaces link s t user c old control v room may known h =
    let r = accept_login_again s user c v room may link control old known in
    let same : r.0 ≡ t = ground (arith, r.1) in rw (← same) (r.3, r.2.1.by_user, r.4)
