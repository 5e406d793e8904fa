-- ===== src/Login/Sessions.antt =====
-- What the five tables of the login server mean together, and that adding and dropping a session
-- keep it.
use pxc_prop_strikes_back.Base.{
  Map, sym, Option-cases, nat_key, int_key, bytes_key, find-erase_ne, find-erase-some,
  find-put_self, find-put_ne, find-put-some, ℕ, ◌≡◌, ◌≢◌, ◌∙◌, refl, inl, inr, List, none, some,
  arith, ℤ, find, put, erase, insert_fresh, erase_found-some,
}
use pxc_prop_strikes_back.Login.{Tables, Conn, forget_tables, register_tables}

-- A session of the tables: client `id` is user `user` on connection `c`.
pub record IsSession (s : Tables) (id : ℤ) (user : List ℕ) (c : Conn) : Type 0 where
  pub by_user : find user s.user_to_id_map ≡ some id
  pub name : find id s.id_to_user_map ≡ some user
  pub conn : find id s.id_to_connection_map ≡ some c
  pub owner : find c s.connection_to_id_map ≡ some id
  pub token : find id s.user_token_map ≡ some id

-- Every entry of every table belongs to one session, and ids come from tokens already given out.
pub record IsConsistent (s : Tables) : Type 0 where
  pub of_token :
      (id t : ℤ)
      → find id s.user_token_map ≡ some t
      → (user : List ℕ) × (c : Conn) × IsSession s id user c
  pub of_user :
      (user : List ℕ) (id : ℤ)
      → find user s.user_to_id_map ≡ some id
      → (c : Conn) × IsSession s id user c
  pub of_name :
      (id : ℤ) (user : List ℕ)
      → find id s.id_to_user_map ≡ some user
      → (c : Conn) × IsSession s id user c
  pub of_conn :
      (id : ℤ) (c : Conn)
      → find id s.id_to_connection_map ≡ some c
      → (user : List ℕ) × IsSession s id user c
  pub of_owner :
      (c : Conn) (id : ℤ)
      → find c s.connection_to_id_map ≡ some id
      → (user : List ℕ) × IsSession s id user c

-- The tables without one session.
abbrev pub without : ℤ → List ℕ → Conn → Tables → Tables
without id user c s = record {
  user_token_map = erase id s.user_token_map;
  id_to_connection_map = erase id s.id_to_connection_map;
  connection_to_id_map = erase c s.connection_to_id_map;
  user_to_id_map = erase user s.user_to_id_map;
  id_to_user_map = erase id s.id_to_user_map;
}

-- The tables with one session more.
abbrev pub with_session : ℤ → List ℕ → Conn → Tables → Tables
with_session id user c s = record {
  user_token_map = put id id s.user_token_map;
  id_to_connection_map = put id c s.id_to_connection_map;
  connection_to_id_map = put c id s.connection_to_id_map;
  user_to_id_map = put user id s.user_to_id_map;
  id_to_user_map = put id user s.id_to_user_map;
}

module _ (s : Tables) (id : ℤ) (user : List ℕ) (c : Conn) where
  -- Dropping a session of the tables does not fault.
  pub forget_tables-eq-without :
      IsSession s id user c → forget_tables id user c s ≡ some (without id user c s)
  unfolding forget_tables
  forget_tables-eq-without h = rw (
    erase_found-some user id s.user_to_id_map h.by_user,
    erase_found-some id user s.id_to_user_map h.name,
    erase_found-some id c s.id_to_connection_map h.conn,
    erase_found-some c id s.connection_to_id_map h.owner,
    erase_found-some id id s.user_token_map h.token,
  )

module _ (s : Tables) {id j : ℤ} {user u : List ℕ} {c d : Conn} (h : IsSession s id user c) where
  -- Sessions of two users, or on two connections, are of two clients.
  IsSession-ne_of_user : IsSession s j u d → user ≢ u → id ≢ j
  IsSession-ne_of_user k ne e = ne (ground (arith, h.name, k.name))

  IsSession-ne_of_conn : IsSession s j u d → c ≢ d → id ≢ j
  IsSession-ne_of_conn k ne e = ne (ground (arith, h.conn, k.conn))

  -- Another client's session outlives a drop.
  IsSession-without : IsSession s j u d → id ≢ j → IsSession (without id user c s) j u d
  IsSession-without k ne = record {
    by_user =
        find-erase_ne user u s.user_to_id_map (λ e. ne (ground (arith, h.by_user, k.by_user)))
        ∙ k.by_user;
    name = find-erase_ne id j s.id_to_user_map ne ∙ k.name;
    conn = find-erase_ne id j s.id_to_connection_map ne ∙ k.conn;
    owner =
        find-erase_ne c d s.connection_to_id_map (λ e. ne (ground (arith, h.owner, k.owner)))
        ∙ k.owner;
    token = find-erase_ne id j s.user_token_map ne ∙ k.token;
  }

module _ (s : Tables) (v : IsConsistent s) where
  module _ {id : ℤ} {user : List ℕ} {c : Conn} (h : IsSession s id user c) where
    -- Dropping a session keeps the tables consistent.
    pub without-IsConsistent : IsConsistent (without id user c s)
    without-IsConsistent = record {
      of_token = λ j t e.
          let (ne, old) = find-erase-some id j s.user_token_map e in
          let (u, d, k) = v.of_token j t old in (u, d, IsSession-without s h k ne);
      of_user = λ u j e.
          let (ne, old) = find-erase-some user u s.user_to_id_map e in
          let (d, k) = v.of_user u j old in
          (d, IsSession-without s h k (IsSession-ne_of_user s h k ne));
      of_name = λ j u e.
          let (ne, old) = find-erase-some id j s.id_to_user_map e in
          let (d, k) = v.of_name j u old in (d, IsSession-without s h k ne);
      of_conn = λ j d e.
          let (ne, old) = find-erase-some id j s.id_to_connection_map e in
          let (u, k) = v.of_conn j d old in (u, IsSession-without s h k ne);
      of_owner = λ d j e.
          let (ne, old) = find-erase-some c d s.connection_to_id_map e in
          let (u, k) = v.of_owner d j old in
          (u, IsSession-without s h k (IsSession-ne_of_conn s h k ne));
    }

-- No table knows the client, the user or the connection.
pub record IsFresh (s : Tables) (id : ℤ) (user : List ℕ) (c : Conn) : Type 0 where
  pub no_token : find id s.user_token_map ≡ none
  pub no_user : find user s.user_to_id_map ≡ none
  pub no_owner : find c s.connection_to_id_map ≡ none

module _ (s : Tables) (id : ℤ) (user : List ℕ) (c : Conn) (f : IsFresh s id user c) where
  IsSession-ne_fresh :
      {j : ℤ} {u : List ℕ} {d : Conn} → IsSession s j u d → (id ≢ j) × (user ≢ u) × (c ≢ d)
  IsSession-ne_fresh k = (
    λ e. ground (arith, f.no_token, k.token),
    λ e. ground (arith, f.no_user, k.by_user),
    λ e. ground (arith, f.no_owner, k.owner),
  )

  -- The new session is one, and the others stay.
  pub IsSession-with_session : IsSession (with_session id user c s) id user c
  IsSession-with_session = record {
    by_user = find-put_self user id s.user_to_id_map;
    name = find-put_self id user s.id_to_user_map;
    conn = find-put_self id c s.id_to_connection_map;
    owner = find-put_self c id s.connection_to_id_map;
    token = find-put_self id id s.user_token_map;
  }

  pub IsSession-with_session_old :
      {j : ℤ} {u : List ℕ} {d : Conn}
      → IsSession s j u d
      → IsSession (with_session id user c s) j u d
  IsSession-with_session_old {j} {u} {d} k =
      let (ne, ne_user, ne_conn) = IsSession-ne_fresh k in
      record {
        by_user = find-put_ne user u id s.user_to_id_map ne_user ∙ k.by_user;
        name = find-put_ne id j user s.id_to_user_map ne ∙ k.name;
        conn = find-put_ne id j c s.id_to_connection_map ne ∙ k.conn;
        owner = find-put_ne c d id s.connection_to_id_map ne_conn ∙ k.owner;
        token = find-put_ne id j id s.user_token_map ne ∙ k.token;
      }

  module _ (v : IsConsistent s) where
    -- Adding a session keeps the tables consistent.
    pub with_session-IsConsistent : IsConsistent (with_session id user c s)
    with_session-IsConsistent = record {
      of_token = λ j t e. elim (find-put-some id j id s.user_token_map e) [
        | inl (p, _) ↦ (user, c, rw (← p) IsSession-with_session)
        | inr (_, old) ↦ let (u, d, k) = v.of_token j t old in (u, d, IsSession-with_session_old k)
      ];
      of_user = λ u j e. elim (find-put-some user u id s.user_to_id_map e) [
        | inl (p, q) ↦ (c, rw (← p, ← q) IsSession-with_session)
        | inr (_, old) ↦ let (d, k) = v.of_user u j old in (d, IsSession-with_session_old k)
      ];
      of_name = λ j u e. elim (find-put-some id j user s.id_to_user_map e) [
        | inl (p, q) ↦ (c, rw (← p, ← q) IsSession-with_session)
        | inr (_, old) ↦ let (d, k) = v.of_name j u old in (d, IsSession-with_session_old k)
      ];
      of_conn = λ j d e. elim (find-put-some id j c s.id_to_connection_map e) [
        | inl (p, q) ↦ (user, rw (← p, ← q) IsSession-with_session)
        | inr (_, old) ↦ let (u, k) = v.of_conn j d old in (u, IsSession-with_session_old k)
      ];
      of_owner = λ d j e. elim (find-put-some c d id s.connection_to_id_map e) [
        | inl (p, q) ↦ (user, rw (← p, ← q) IsSession-with_session)
        | inr (_, old) ↦ let (u, k) = v.of_owner d j old in (u, IsSession-with_session_old k)
      ];
    }

    -- A fresh client has no entry by number in any table.
    no_conn : find id s.id_to_connection_map ≡ none
    no_conn = elim (Option-cases (find id s.id_to_connection_map)) [
      | inl e ↦ e
      | inr (d, e) ↦ absurd ((IsSession-ne_fresh (v.of_conn id d e).1).0 refl)
    ]

    no_name : find id s.id_to_user_map ≡ none
    no_name = elim (Option-cases (find id s.id_to_user_map)) [
      | inl e ↦ e
      | inr (u, e) ↦ absurd ((IsSession-ne_fresh (v.of_name id u e).1).0 refl)
    ]

    -- `insert` adds all four entries of a fresh session.
    pub register_tables_fresh :
        (tokens : Map ℤ ℤ)
        → register_tables id user c (record s { user_token_map = tokens })
          ≡ record (with_session id user c s) { user_token_map = tokens }
    unfolding register_tables
    register_tables_fresh tokens = rw (
      insert_fresh c id s.connection_to_id_map f.no_owner,
      insert_fresh id c s.id_to_connection_map no_conn,
      insert_fresh user id s.user_to_id_map f.no_user,
      insert_fresh id user s.id_to_user_map no_name,
    )

-- Consistency sees the tokens only through `find`.
module _ (s : Tables) (m : Map ℤ ℤ) (same : (j : ℤ) → find j m ≡ find j s.user_token_map) where
  pub retoken-IsSession :
      {id : ℤ} {user : List ℕ} {c : Conn}
      → IsSession s id user c
      → IsSession (record s { user_token_map = m }) id user c
  retoken-IsSession {id} k = record {
    by_user = k.by_user;
    name = k.name;
    conn = k.conn;
    owner = k.owner;
    token = same id ∙ k.token;
  }

  pub retoken-IsConsistent : IsConsistent s → IsConsistent (record s { user_token_map = m })
  retoken-IsConsistent v = record {
    of_token =
        λ j t e. let (u, d, k) = v.of_token j t (sym (same j) ∙ e) in (u, d, retoken-IsSession k);
    of_user = λ u j e. let (d, k) = v.of_user u j e in (d, retoken-IsSession k);
    of_name = λ j u e. let (d, k) = v.of_name j u e in (d, retoken-IsSession k);
    of_conn = λ j d e. let (u, k) = v.of_conn j d e in (u, retoken-IsSession k);
    of_owner = λ d j e. let (u, k) = v.of_owner d j e in (u, retoken-IsSession k);
  }

-- The tables after `register`, over tokens that were issued before the drop.
module _ (s : Tables) (id : ℤ) (user : List ℕ) (c : Conn) (f : IsFresh s id user c)
    (v : IsConsistent s) (m : Map ℤ ℤ)
    (same : (j : ℤ) → find j m ≡ find j (put id id s.user_token_map)) where
  pub register_tables-IsConsistent :
      IsConsistent (register_tables id user c (record s { user_token_map = m }))
  register_tables-IsConsistent = rw (register_tables_fresh s id user c f v m) (
      retoken-IsConsistent (with_session id user c s) m same
        (with_session-IsConsistent s id user c f v))

  pub register_tables-IsSession :
      IsSession (register_tables id user c (record s { user_token_map = m })) id user c
  register_tables-IsSession =
      rw (register_tables_fresh s id user c f v m)
        (retoken-IsSession (with_session id user c s) m same (IsSession-with_session s id user c f))
