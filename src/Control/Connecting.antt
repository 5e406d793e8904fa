-- ===== src/Control/Connecting.antt =====
-- The table of addresses and the list of servers that the start of the control server makes.
use pxc_prop_strikes_back.Base.{
  ℕ, zero, suc, ◌+◌, ◌-◌, ◌<◌, ◌≡◌, refl, sym, ap, ◌∙◌, true, false, List, [], ◌∷◌, ◌++◌, Option,
  none, some, if◌then◌else◌, ltb, leb, nat_key, eq_bytes, length, take, ==_iff, ◌==◌, append-nil,
  append-last, arith, Bool-cases, inl, inr, length-append, eq_bytes_iff,
}
use mathlib.Core.List.{map}
use pxc_prop_strikes_back.Control.Addresses.{
  Row, Addresses, type_game_server, type_router_server, type_login_server, strcpy, fill_row,
  fill_rows, fill_ip_server_table, ip_length, port_length,
}

-- Both strings of a row fit their buffers.
abbrev pub Fits : Row → Type 0
Fits row = (length row.ip < ip_length) × (length row.port < port_length)

abbrev pub AllFit : List Row → Type 0
AllFit [] = Unit {0}
AllFit (row ∷ rows) = Fits row × AllFit rows

-- The rows of a kind, and the last of them.
abbrev pub rows_of : List ℕ → List Row → List Row
rows_of kind [] = []
rows_of kind (row ∷ rows) =
    let rest = rows_of kind rows in if eq_bytes row.kind kind then row ∷ rest else rest

abbrev pub last_of : List ℕ → List Row → Option (List ℕ × List ℕ) → Option (List ℕ × List ℕ)
last_of kind [] found = found
last_of kind (row ∷ rows) found =
    last_of kind rows (if eq_bytes row.kind kind then some (row.ip, row.port) else found)

-- What the table is, by the rows that are read, the room for game servers and the table before.
pub record IsFilled (room : ℕ) (rows : List Row) (a b : Addresses) : Type 0 where
  pub ips :
      b.ip_servers ≡ a.ip_servers ++ map (λ row. row.ip) (take room (rows_of type_game_server rows))
  pub ports :
      b.port_servers
      ≡ a.port_servers ++ map (λ row. row.port) (take room (rows_of type_game_server rows))
  pub router : b.router ≡ last_of type_router_server rows a.router
  pub login : b.login ≡ last_of type_login_server rows a.login

strcpy_fits : (capacity : ℕ) (s : List ℕ) → length s < capacity → strcpy capacity s ≡ some s
unfolding strcpy
strcpy_fits capacity s h = ground arith

take_none : {A : Type 0} (n : ℕ) → take {A = A} n [] ≡ []
take_none zero = refl
take_none (suc n) = refl

game_only :
    (row : Row)
    → eq_bytes row.kind type_game_server ≡ true
    → (eq_bytes row.kind type_router_server ≡ false) × (eq_bytes row.kind type_login_server ≡ false)
game_only row game = (
  ground (arith, eq_bytes_iff row.kind type_game_server, eq_bytes_iff row.kind type_router_server),
  ground (arith, eq_bytes_iff row.kind type_game_server, eq_bytes_iff row.kind type_login_server),
)

-- What one row does to the table, by its kind.
module _ (number room : ℕ) (row : Row) (rows : List Row) (a a' : Addresses)
    (ip : strcpy ip_length row.ip ≡ some row.ip)
    (port : strcpy port_length row.port ≡ some row.port)
    (free : number ≡ length a.ip_servers + room) where
  fill_row_game :
      eq_bytes row.kind type_game_server ≡ true
      → 0 < room
      → fill_row number row a
        ≡ some (record a {
          ip_servers = a.ip_servers ++ row.ip ∷ [];
          port_servers = a.port_servers ++ row.port ∷ [];
        })
  unfolding fill_row
  fill_row_game game some_room =
      let fits : ltb (length a.ip_servers) number ≡ true = ground arith in
      rw (game, fits, ip, port) refl

  fill_row_full :
      eq_bytes row.kind type_game_server ≡ true → room ≡ 0 → fill_row number row a ≡ some a
  unfolding fill_row
  fill_row_full game no_room =
      let full : ltb (length a.ip_servers) number ≡ false = ground arith in
      let (no_router, no_login) = game_only row game in rw (game, full, no_router, no_login) refl

  -- What a row of another kind is.
  abbrev Other : Addresses → Type 0
  Other b =
      (b.ip_servers ≡ a.ip_servers)
      × (b.port_servers ≡ a.port_servers)
      × (b.router
          ≡ (if eq_bytes row.kind type_router_server then some (row.ip, row.port) else a.router))
      × (b.login
          ≡ (if eq_bytes row.kind type_login_server then some (row.ip, row.port) else a.login))

  fill_row-Other :
      eq_bytes row.kind type_game_server ≡ false
      → (b : Addresses) × (fill_row number row a ≡ some b) × Other b
  unfolding fill_row
  fill_row-Other game = elim (Bool-cases (eq_bytes row.kind type_router_server)) [
    | inl is_kind ↦
        let no_login : eq_bytes row.kind type_login_server ≡ false = ground (
          arith,
          eq_bytes_iff row.kind type_router_server,
          eq_bytes_iff row.kind type_login_server,
        ) in
        (
          record a { router = some (row.ip, row.port) },
          rw (game, is_kind, ip, port) refl,
          (refl, refl, rw is_kind refl, rw no_login refl),
        )
    | inr not_router ↦ elim (Bool-cases (eq_bytes row.kind type_login_server)) [
      | inl is_kind ↦ (
        record a { login = some (row.ip, row.port) },
        rw (game, not_router, is_kind, ip, port) refl,
        (refl, refl, rw not_router refl, rw is_kind refl),
      )
      | inr not_login ↦ (
        a,
        rw (game, not_router, not_login) refl,
        (refl, refl, rw not_router refl, rw not_login refl),
      )
    ]
  ]

first_wanted :
    (f : Row → List ℕ) (room left : ℕ) (row : Row) (rows : List Row)
    → room ≡ suc left
    → eq_bytes row.kind type_game_server ≡ true
    → map f (take room (rows_of type_game_server (row ∷ rows)))
      ≡ f row ∷ map f (take left (rows_of type_game_server rows))
first_wanted f room left row rows one game = rw (one, game) refl

fill_rows_lem :
    (number room : ℕ) (rows : List Row) (a : Addresses)
    → number ≡ length a.ip_servers + room
    → AllFit rows
    → (b : Addresses) × (fill_rows number rows a ≡ some b) × IsFilled room rows a b
unfolding fill_rows
fill_rows_lem number room [] a free fit = (
  a,
  refl,
  record {
    ips = rw (take_none {A = Row} room) (sym (append-nil a.ip_servers));
    ports = rw (take_none {A = Row} room) (sym (append-nil a.port_servers));
    router = refl;
    login = refl;
  },
)
fill_rows_lem number room (row ∷ rows) a free ((fit_ip, fit_port), fit) =
    let ip = strcpy_fits ip_length row.ip fit_ip in
    let port = strcpy_fits port_length row.port fit_port in
    elim (Bool-cases (eq_bytes row.kind type_game_server)) [
      | inl game ↦ elim (Bool-cases (room == 0)) [
        | inl full ↦
            let no_room : room ≡ 0 = ground (arith, ==_iff room 0) in
            let e = fill_row_full number room row rows a a ip port free game no_room in
            let (b, f, filled) = fill_rows_lem number 0 rows a (rw (← no_room) free) fit in
            let (no_router, no_login) = game_only row game in
            (
              b,
              rw e f,
              record {
                ips = rw no_room filled.ips;
                ports = rw no_room filled.ports;
                router = filled.router ∙ rw no_router refl;
                login = filled.login ∙ rw no_login refl;
              },
            )
        | inr more ↦
            let left : ℕ = room - 1 in
            let one : room ≡ suc left = ground (arith, ==_iff room 0) in
            let a' : Addresses = record a {
              ip_servers = a.ip_servers ++ row.ip ∷ [];
              port_servers = a.port_servers ++ row.port ∷ [];
            } in
            let e = fill_row_game number room row rows a a ip port free game (omega arith) in
            let size = length-append a.ip_servers (row.ip ∷ []) in
            let free' : number ≡ length a'.ip_servers + left = omega arith in
            let (b, f, filled) = fill_rows_lem number left rows a' free' fit in
            let rest = take left (rows_of type_game_server rows) in
            let (no_router, no_login) = game_only row game in
            (
              b,
              rw e f,
              record {
                ips =
                    filled.ips
                    ∙ (append-last a.ip_servers row.ip (map (λ x. x.ip) rest)
                        ∙ ap (λ l. a.ip_servers ++ l)
                            (sym (first_wanted (λ x. x.ip) room left row rows one game)));
                ports =
                    filled.ports
                    ∙ (append-last a.port_servers row.port (map (λ x. x.port) rest)
                        ∙ ap (λ l. a.port_servers ++ l)
                            (sym (first_wanted (λ x. x.port) room left row rows one game)));
                router = filled.router ∙ rw no_router refl;
                login = filled.login ∙ rw no_login refl;
              },
            )
      ]
      | inr other ↦
          let (a', e, (ips, ports, router, login)) =
            fill_row-Other number room row rows a a ip port free other in
          let free' : number ≡ length a'.ip_servers + room = rw ips free in
          let (b, f, filled) = fill_rows_lem number room rows a' free' fit in
          (
            b,
            rw e f,
            record {
              ips = rw other (filled.ips ∙ rw ips refl);
              ports = rw other (filled.ports ∙ rw ports refl);
              router = filled.router ∙ rw router refl;
              login = filled.login ∙ rw login refl;
            },
          )
    ]

-- The table of addresses, when every address fits its buffer: its game servers are the first rows of
-- game servers, as many as are wanted, in the order of the rows, and the router and the login server
-- are the last rows of their kinds.
pub fill_ip_server_table_lem :
    (number : ℕ) (rows : List Row)
    → AllFit rows
    → (a : Addresses) × (fill_ip_server_table number rows ≡ some a)
      × (a.ip_servers ≡ map (λ row. row.ip) (take number (rows_of type_game_server rows)))
      × (a.port_servers ≡ map (λ row. row.port) (take number (rows_of type_game_server rows)))
      × (a.router ≡ last_of type_router_server rows none)
      × (a.login ≡ last_of type_login_server rows none)
unfolding fill_ip_server_table
fill_ip_server_table_lem number rows fit =
    let none_yet : Addresses = record {
      ip_servers = [];
      port_servers = [];
      router = none;
      login = none;
    } in
    let (a, e, filled) = fill_rows_lem number number rows none_yet (omega arith) fit in
    (a, e, filled.ips, filled.ports, filled.router, filled.login)

-- A game server whose port has five digits does not fit, if it is still wanted: the table is
-- written outside of its buffer.
pub port_too_long :
    (number : ℕ) (row : Row) (rows : List Row) (a : Addresses)
    → eq_bytes row.kind type_game_server ≡ true
    → length a.ip_servers < number
    → length row.port ≡ 5
    → fill_rows number (row ∷ rows) a ≡ none
unfolding fill_rows fill_row strcpy
port_too_long number row rows a game wanted five =
    let fits : ltb (length a.ip_servers) number ≡ true = ground arith in
    elim (Bool-cases (leb (suc (length row.ip)) ip_length)) [
      | inl ip ↦ rw (game, fits, ip, five) refl
      | inr ip ↦ rw (game, fits, ip) refl
    ]
