-- ===== src/Login/Weakness.antt =====
-- Requests that break the tables of the login server, or the server: what `IsProper` rules out.
use pxc_prop_strikes_back.Base.{
  ℕ, ◌+◌, ◌<◌, ◌≡◌, ◌≢◌, refl, Bool, List, none, some, arith, ℤ, eq_int_iff, to_int, find,
  insert_fresh, insert_old, erase_found-none, find-put_self, nat_key, int_key, bytes_key,
  Option-cases, inl, inr,
}
use pxc_prop_strikes_back.Login.Sessions.{IsConsistent}
use pxc_prop_strikes_back.Login.Validity.{IsValid, fresh_token}
use pxc_prop_strikes_back.Login.{
  Login, Conn, drop_old, register, register_tables, issue, forget_tables, accept_login,
  logout_request,
}

module _ (s : Login) (v : IsValid s) (room : s.next_free_token + 1 < 4294967296) where
  -- The next number has no connection.
  fresh_conn : find (to_int s.next_free_token) s.tables.id_to_connection_map ≡ none
  fresh_conn = elim (Option-cases (find (to_int s.next_free_token) s.tables.id_to_connection_map)) [
    | inl e ↦ e
    | inr (d, e) ↦
        absurd (ground (arith, fresh_token s v room, (v.consistent.of_conn _ d e).1.token))
  ]

  -- A client in the tables is not the next one.
  owner_ne_next :
      (c : Conn) (first : ℤ)
      → find c s.tables.connection_to_id_map ≡ some first
      → first ≢ to_int s.next_free_token
  owner_ne_next c first taken e =
      ground (arith, fresh_token s v room, (v.consistent.of_owner c first taken).1.token)

-- A second user on a connection that has a session: the login succeeds, and the tables disagree,
-- since `insert` keeps the connection's first client.
pub accept_login_second_user :
    (link : Conn → Bool) (s : Login) (user : List ℕ) (c : Conn) (first : ℤ)
    → IsValid s
    → s.next_free_token + 1 < 4294967296
    → find c s.tables.connection_to_id_map ≡ some first
    → find user s.tables.user_to_id_map ≡ none
    → (t : Login) × (accept_login link user c s ≡ some t)
      × (find c t.tables.connection_to_id_map ≡ some first)
      × ¬ IsConsistent t.tables
unfolding accept_login drop_old issue register register_tables
accept_login_second_user link s user c first v room taken absent = (
  register (to_int s.next_free_token) user c
      (record s { tables = issue (to_int s.next_free_token) s.tables }),
  rw (absent, drop_old) refl,
  rw (insert_old c _ first _ taken) taken,
  λ w.
      let (d, k) =
        w.of_user user (to_int s.next_free_token)
          (rw (insert_fresh user _ _ absent) (find-put_self user _ _)) in
      owner_ne_next s v room c first taken (
        ground (
          arith,
          k.owner,
          k.conn,
          insert_old c (to_int s.next_free_token) first _ taken,
          insert_fresh _ c _ (fresh_conn s v room),
          find-put_self (to_int s.next_free_token) c s.tables.id_to_connection_map,
        )),
)

-- A logout with the right client and token, over a connection that has no session, faults: the
-- handler erases the asking connection's entry and not the client's.
pub logout_request_elsewhere :
    (link : Conn → Bool) (s : Login) (id token : ℤ) (c : Conn)
    → find id s.tables.user_token_map ≡ some token
    → find c s.tables.connection_to_id_map ≡ none
    → logout_request link id token c s ≡ none
unfolding logout_request forget_tables
logout_request_elsewhere link s id token c held stranger =
    rw (held, (eq_int_iff token token).1 refl)
      (ground (arith, erase_found-none c s.tables.connection_to_id_map stranger))
