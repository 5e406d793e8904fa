-- ===== src/Login/Contract.antt =====
-- What the login server promises, without its five tables: who has a session, and the next number.
use pxc_prop_strikes_back.Base.{
  ℕ, ◌+◌, ◌==◌, ℤ, eq_int, to_int, eq_bytes, Bool, true, false, List, [], ◌∷◌, Option, none, some,
  ◌>>=◌, if◌then◌else◌, find, int_key,
}
use pxc_prop_strikes_back.Login.{Login, Tables, Conn}
use pxc_prop_strikes_back.Login.Password.{Backend, validate}
use pxc_prop_strikes_back.Login.Served.{Request, login, logout, closes, control}

-- The sessions: the user and the connection of each client's number.
abbrev pub Sessions : Type 0
Sessions = ℤ → Option (List ℕ × Conn)

pub record Promise : Type 0 where
  pub sessions : Sessions
  pub next : ℕ

-- The sessions of all users but one, of all connections but one, and of all numbers but one.
abbrev pub keep_user : List ℕ → List ℕ × Conn → Option (List ℕ × Conn)
keep_user user (u, c) = if eq_bytes u user then none else some (u, c)

abbrev pub keep_conn : Conn → List ℕ × Conn → Option (List ℕ × Conn)
keep_conn c (u, d) = if d == c then none else some (u, d)

abbrev pub drop_user : List ℕ → Sessions → Sessions
drop_user user f j = f j >>= keep_user user

abbrev pub drop_conn : Conn → Sessions → Sessions
drop_conn c f j = f j >>= keep_conn c

abbrev pub drop_id : ℤ → Sessions → Sessions
drop_id id f j = if eq_int id j then none else f j

-- A login gives the user the next number, and takes every other session of it.
abbrev pub enter : List ℕ → Conn → Promise → Promise
enter user c p = record {
  sessions = λ j. if eq_int (to_int p.next) j then some (user, c) else drop_user user p.sessions j;
  next = p.next + 1;
}

abbrev pub enter_valid : Option Bool → List ℕ → Conn → Promise → Promise
enter_valid none user c p = p
enter_valid (some false) user c p = p
enter_valid (some true) user c p = enter user c p

-- What a request does to the sessions: a logout needs the token, which is the number itself.
unfoldable pub promised : Backend → Request → Promise → Promise
promised b (login stale u user pwd c) p = enter_valid (validate b stale user pwd) user c p
promised b (logout id token c) p =
    if eq_int id token then record p { sessions = drop_id id p.sessions } else p
promised b (closes c) p = record p { sessions = drop_conn c p.sessions }
promised b (control c) p = p

unfoldable pub promised_all : Backend → List Request → Promise → Promise
unfolding promised
promised_all b [] p = p
promised_all b (r ∷ rs) p = promised_all b rs (promised b r p)

-- The abstraction: the sessions of the tables.
abbrev pub session_at : Tables → Sessions
session_at t j = find j t.id_to_user_map >>= λ u. find j t.id_to_connection_map >>= λ c. some (u, c)

abbrev pub abstract : Login → Promise
abstract s = record { sessions = session_at s.tables; next = s.next_free_token }
