-- ===== src/Login/Validity.antt =====
-- Valid tables of the login server, and the session that a login replaces
-- (servlogin/src/LoginRequest.cpp).
use pxc_prop_strikes_back.Base.{
  ℕ, ◌+◌, ◌<◌, ◌≡◌, ◌≢◌, ◌∙◌, sym, inl, inr, List, [], ◌∷◌, ◌++◌, none, some, if◌then◌else◌, arith,
  ℤ, eq_int_iff, ==_iff, eq_bytes_iff, u32, to_int, to_int-injective, Map, find, put, erase, insert,
  insert_fresh, find-put, find-erase, find-put-some, find-put_ne, find-erase-some, append-nil,
  Option-cases, Bool, true, Bool-cases, refl, nat_key, int_key, bytes_key,
}
use pxc_prop_strikes_back.Login.Sessions.{
  IsSession, IsConsistent, IsFresh, without, forget_tables-eq-without, register_tables-IsConsistent,
  register_tables-IsSession,
}
use pxc_prop_strikes_back.Login.{
  Login, Tables, Conn, forget, drop_old, register, register_tables, issue, to_control,
  client_disconnect, Sent, control_message,
}

-- Consistent tables, whose clients all have numbers that were given out.
pub record IsValid (s : Login) : Type 0 where
  pub consistent : IsConsistent s.tables
  pub issued :
      (id t : ℤ)
      → find id s.tables.user_token_map ≡ some t
      → (k : ℕ) × (k < s.next_free_token) × (id ≡ to_int k)

-- The connection has no session, or its session is of this user.
abbrev pub MayLogin : Login → List ℕ → Conn → Type 0
MayLogin s user c =
    (id : ℤ)
    → find c s.tables.connection_to_id_map ≡ some id
    → find user s.tables.user_to_id_map ≡ some id

module _ (s : Login) (v : IsValid s) (room : s.next_free_token + 1 < 4294967296) where
  -- The next number is nobody's.
  pub fresh_token : find (to_int s.next_free_token) s.tables.user_token_map ≡ none
  fresh_token = elim (Option-cases (find (to_int s.next_free_token) s.tables.user_token_map)) [
    | inl e ↦ e
    | inr (t, e) ↦
        let (k, lt, same) = v.issued _ t e in
        absurd
          (omega (arith, to_int-injective s.next_free_token k (omega arith) (omega arith) same))
  ]

-- `register` over tables without the user, with the token issued before.
module _ (s : Login) (b : Tables) (user : List ℕ) (c : Conn)
    (room : s.next_free_token + 1 < 4294967296) (f : IsFresh b (to_int s.next_free_token) user c)
    (v : IsConsistent b)
    (issued : (id t : ℤ)
      → find id b.user_token_map ≡ some t
      → (k : ℕ) × (k < s.next_free_token) × (id ≡ to_int k))
    (m : Map ℤ ℤ)
    (same : (j : ℤ)
      → find j m
        ≡ find j (put (to_int s.next_free_token) (to_int s.next_free_token) b.user_token_map)) where
  abbrev pub registered : Login
  registered =
      register (to_int s.next_free_token) user c
        (record s { tables = record b { user_token_map = m } })

  pub registered-IsValid : IsValid registered
  unfolding register register_tables
  registered-IsValid = record {
    consistent = register_tables-IsConsistent b _ user c f v m same;
    issued = λ j t e.
        elim (find-put-some (to_int s.next_free_token) j _ b.user_token_map (sym (same j) ∙ e)) [
          | inl (p, _) ↦ (s.next_free_token, omega arith, sym p)
          | inr (_, old) ↦ let (k, lt, q) = issued j t old in (k, omega arith, q)
        ];
  }

  pub registered-IsSession : IsSession registered.tables (to_int s.next_free_token) user c
  unfolding register
  registered-IsSession = register_tables-IsSession b _ user c f v m same

-- A balance server that is connected can be written to.
abbrev pub ControlUp : (Conn → Bool) → Login → Type 0
ControlUp link s = s.control_connected ≡ true → link s.control_connection ≡ true

pub to_control_lem :
    (link : Conn → Bool) (m : Conn → Sent) (s : Login)
    → ControlUp link s
    → to_control link m s ≡ some (record s { sent = s.sent ++ control_message m s })
unfolding to_control
to_control_lem link m s up = elim (Bool-cases s.control_connected) [
  | inl on ↦ rw (on, up on) refl
  | inr off ↦ rw (off, append-nil s.sent) refl
]

-- What a right password leads to.
abbrev pub Accepted : (Conn → Bool) → List ℕ → Conn → Login → Login → Type 0
Accepted link user c s t =
    IsValid t
    × IsSession t.tables (to_int s.next_free_token) user c
    × (t.next_free_token ≡ s.next_free_token + 1)
    × ControlUp link t

-- The user has a session `old` on connection `d`, and the next number is issued before the drop.
module _ (s : Login) (user : List ℕ) (v : IsValid s) (room : s.next_free_token + 1 < 4294967296)
    (old : ℤ) (d : Conn) (k : IsSession s.tables old user d) where
  abbrev pub next : ℤ
  next = to_int s.next_free_token

  abbrev pub dropped : Tables
  dropped = without old user d s.tables

  pub next_ne_old : next ≢ old
  next_ne_old e = ground (arith, fresh_token s v room, k.token)

  -- Issuing a number leaves the old session in the tables.
  pub issue-IsSession : IsSession (issue next s.tables) old user d
  unfolding issue
  issue-IsSession = record {
    by_user = k.by_user;
    name = k.name;
    conn = k.conn;
    owner = k.owner;
    token =
        rw (insert_fresh next next s.tables.user_token_map (fresh_token s v room))
          (find-put_ne next old next s.tables.user_token_map next_ne_old ∙ k.token);
  }

  -- Without it the user, the number and the connection are fresh.
  pub dropped-IsFresh : (c : Conn) → MayLogin s user c → IsFresh dropped next user c
  dropped-IsFresh c may = record {
    no_token = ground (arith, find-erase old next s.tables.user_token_map, fresh_token s v room);
    no_user = ground (arith, find-erase user user s.tables.user_to_id_map, eq_bytes_iff user user);
    no_owner = elim (Option-cases (find c s.tables.connection_to_id_map)) [
      | inl e ↦ ground (arith, find-erase d c s.tables.connection_to_id_map)
      | inr (i, e) ↦
          let q = (v.consistent.of_owner c i e).1 in
          ground (
            arith,
            find-erase d c s.tables.connection_to_id_map,
            may i e,
            k.by_user,
            k.conn,
            q.conn,
            ==_iff d c,
          )
    ];
  }

  -- Issue and drop in either order: the same tokens are found.
  pub find-erase-insert :
      (j : ℤ)
      → find j (erase old (insert next next s.tables.user_token_map))
        ≡ find j (put next next dropped.user_token_map)
  find-erase-insert j = rw (insert_fresh next next s.tables.user_token_map (fresh_token s v room)) (
      ground (
        arith,
        next_ne_old,
        find-erase old j (put next next s.tables.user_token_map),
        find-put next j next s.tables.user_token_map,
        find-put next j next dropped.user_token_map,
        find-erase old j s.tables.user_token_map,
        eq_int_iff next j,
        eq_int_iff old j,
      ))

  pub dropped-issued :
      (i t : ℤ)
      → find i dropped.user_token_map ≡ some t
      → (n : ℕ) × (n < s.next_free_token) × (i ≡ to_int n)
  dropped-issued i t e = v.issued i t (find-erase-some old i s.tables.user_token_map e).1

  -- The state before `register`: the balance server has been told.
  abbrev pub told : Login
  told = record s {
    tables = record dropped {
      user_token_map = erase old (insert next next s.tables.user_token_map);
    };
    users_connected = u32 (s.users_connected + 4294967295);
    sent =
        s.sent
        ++ (if s.control_connected
            then client_disconnect s.control_connection old old ∷ []
            else []);
  }

  pub drop_old-eq-told :
      (link : Conn → Bool)
      → ControlUp link s
      → drop_old link user (record s { tables = issue next s.tables }) ≡ some told
  unfolding drop_old issue forget
  drop_old-eq-told link up =
      rw
        (
          k.by_user,
          drop_old,
          issue-IsSession.token,
          k.conn,
          forget,
          forget_tables-eq-without (issue next s.tables) old user d issue-IsSession,
        )
        (to_control_lem link (λ k. client_disconnect k old old) _ up)
