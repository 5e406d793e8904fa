-- ===== src/Login/Examples.antt =====
-- Runs of the login server at concrete requests.
use pxc_prop_strikes_back.Base.{
  replicate, ℕ, ◌≡◌, refl, Bool, true, false, List, [], ◌∷◌, none, some, arith, ℤ, pos, find, put,
  insert, nat_key, int_key, bytes_key, minus_one,
}
use pxc_prop_strikes_back.Login.Password.{Backend, codes, validate}
use pxc_prop_strikes_back.Login.Buffer.{validate-prefix, validate_overruns}
use pxc_prop_strikes_back.Login.Sessions.{IsSession}
use pxc_prop_strikes_back.Login.Validity.{IsValid}
use pxc_prop_strikes_back.Login.Accepting.{accept_login_lem}
use pxc_prop_strikes_back.Login.Requests.{
  initialize_login-IsValid, answered, login_request_right, logout_request_lem, call_on_close_lem,
}
use pxc_prop_strikes_back.Login.Served.{serve_all, serve_all-IsValid, login, closes, Request}
use pxc_prop_strikes_back.Login.Contract.{abstract, promised_all}
use pxc_prop_strikes_back.Login.Refinement.{serve_all-refines}
use pxc_prop_strikes_back.Login.{
  Login, Conn, Unset, register_tables, initialize_login, accept_login, login_request,
  logout_request, call_on_close, router_ip, router_port,
}

-- A digest that copies, and a database where every query finds a row; the stack is aligned to eight
-- bytes.
abbrev open_backend : Backend
open_backend = record { sha1 = λ b. b; num_rows = λ q. some 1; spare = 8 }

abbrev up : Conn → Bool
up c = true

abbrev unset : Unset
unset = record { client_id = minus_one; token = minus_one; router_ip = []; router_port = [] }

abbrev ann : List ℕ
ann = codes "ann"

abbrev started : Login
started = initialize_login 0

-- Ann is logged in on connection 7.
abbrev logged_in : Login
logged_in = record {
  control_connected = false;
  control_connection = 0;
  next_free_token = 1;
  tables = record {
    user_token_map = (pos 0, pos 0) ∷ [];
    id_to_connection_map = (pos 0, 7) ∷ [];
    connection_to_id_map = (7, pos 0) ∷ [];
    user_to_id_map = (ann, pos 0) ∷ [];
    id_to_user_map = (pos 0, ann) ∷ [];
  };
  users_connected = 1;
  sent = [];
}

accept_login_runs : accept_login up ann 7 started ≡ some logged_in
unfolding accept_login initialize_login register_tables find put insert
accept_login_runs = refl

nobody : (id : ℤ) → find 7 started.tables.connection_to_id_map ≡ some id → ⊥
unfolding initialize_login find
nobody id e = ground arith

logged_in-IsValid : IsValid logged_in
logged_in-IsValid =
    let r =
      accept_login_lem up started ann 7 (λ e. refl) (initialize_login-IsValid 0)
        (unfold initialize_login in omega arith) (λ id e. absurd (nobody id e)) in
    let same : r.0 ≡ logged_in = ground (arith, r.1, accept_login_runs) in rw same at r.2.0

logged_in-IsSession : IsSession logged_in.tables (pos 0) ann 7
unfolding find
logged_in-IsSession = record {
  by_user = refl;
  name = refl;
  conn = refl;
  owner = refl;
  token = refl;
}

validate-prefix_example :
    validate open_backend [] ann (codes "abcd") ≡ validate open_backend [] ann (codes "abcxyz")
validate-prefix_example =
    validate-prefix open_backend [] [] ann (codes "abcd") (codes "abcxyz") (omega arith)
      (omega arith) (omega arith) (omega arith) (omega arith) refl

-- A digest of twenty bytes, and no byte behind the array.
abbrev tight : Backend
tight = record { sha1 = λ b. replicate 20 171; num_rows = λ q. some 1; spare = 0 }

validate_overruns_example : validate tight [] ann (codes "abcd") ≡ none
validate_overruns_example = validate_overruns tight [] ann (codes "abcd") refl refl

login_request_right_example :
    (t : Login) × (login_request open_backend up [] unset ann ann 7 started
      ≡ some (answered 7 0 router_ip router_port (pos 0) (pos 0) t))
    × IsValid t
    × (t.next_free_token ≡ 1)
    × IsSession t.tables (pos 0) ann 7
unfolding initialize_login
login_request_right_example =
    login_request_right open_backend up [] unset ann ann 7 started refl (λ e. refl)
      (initialize_login-IsValid 0) (omega arith) (λ id e. absurd (nobody id e))
      (unfold validate in refl)

logout_request_lem_example :
    (t : Login) × (logout_request up (pos 0) (pos 0) 7 logged_in ≡ some t) × IsValid t
logout_request_lem_example =
    let r =
      logout_request_lem up logged_in (pos 0) ann 7 logged_in-IsValid logged_in-IsSession refl
        (λ e. refl) in
    (r.0, r.1, r.2)

call_on_close_lem_example :
    (t : Login) × (call_on_close 7 logged_in ≡ some t)
    × IsValid t
    × (t.next_free_token ≡ 1)
    × (find 7 t.tables.connection_to_id_map ≡ none)
    × (t.sent ≡ [])
call_on_close_lem_example = call_on_close_lem logged_in 7 logged_in-IsValid

-- Ann logs in, and her connection closes.
abbrev visit : List Request
visit = login [] unset ann ann 7 ∷ closes 7 ∷ []

serve_all-IsValid_example :
    (t : Login) × (serve_all open_backend up visit started ≡ some t) × IsValid t
serve_all-IsValid_example =
    serve_all-IsValid open_backend up visit started (initialize_login-IsValid 0)
      (unfold initialize_login in omega arith)
      (
        (
          omega arith,
          omega arith,
          refl,
          (λ id e. absurd (nobody id e)),
          (omega arith, (1, refl)),
          λ e. refl,
        ),
        λ t e. (tt, λ u f. tt),
      )

serve_all-refines_example :
    (t : Login) × (serve_all open_backend up visit started ≡ some t)
    × (abstract t ≡ promised_all open_backend visit (abstract started))
serve_all-refines_example =
    serve_all-refines open_backend up visit started (initialize_login-IsValid 0)
      (unfold initialize_login in omega arith)
      (
        (
          omega arith,
          omega arith,
          refl,
          (λ id e. absurd (nobody id e)),
          (omega arith, (1, refl)),
          λ e. refl,
        ),
        λ t e. (tt, λ u f. tt),
      )
