-- ===== src/Client/Examples.antt =====
-- The theorems on the client at concrete states.
use pxc_prop_strikes_back.Base.{
  ◌≡◌, refl, ℕ, ℤ, pos, minus_one, Bool, true, false, List, [], ◌∷◌, ◌++◌, some, none,
}
use pxc_prop_strikes_back.Login.Password.{codes}
use pxc_prop_strikes_back.Client.State.{
  login_answer, connect_client, Client, new_client, set_login_address,
}
use pxc_prop_strikes_back.Client.Instructions.{execute}
use pxc_prop_strikes_back.Client.LoggingIn.{Happening, received, looks, Sdl, Result, refused, login}
use pxc_prop_strikes_back.Client.Unplayable.{NotPlaying, login_unplayable}
use pxc_prop_strikes_back.Client.Answered.{looking}
use pxc_prop_strikes_back.Client.Failing.{login_late}

abbrev working : Sdl
working = record { inits = true; surface = true; game_inits = true }

abbrev ready : Client
ready = record {
  game = none;
  user_id = minus_one;
  token = minus_one;
  user = [];
  password = [];
  login_link = some 1;
  router = none;
  is_on_login = false;
  logged_in = false;
  bad_log_on = false;
  init_done = false;
  sent = [];
}

abbrev ann : List ℕ
ann = codes "ann"

-- The answers arrive, but there is no game.
abbrev arrivals : List Happening
arrivals =
    received (login_answer (pos 0) (pos 4) (pos 4) (some 2))
    ∷ looks false
    ∷ received (connect_client (pos 4) (pos 3))
    ∷ looks true
    ∷ []

login_unplayable_example :
    (r : Result) × (login working arrivals ann ann (set_login_address (some 1) new_client) ≡ some r)
    × NotPlaying r
login_unplayable_example = login_unplayable (some 1) working arrivals ann ann

login_late_example :
    (t : Client) × (login working (looking 5 ++ looks true ∷ []) ann ann ready ≡ some (refused t))
    × (t.game ≡ ready.game)
    × ((held : Bool) (id zone : ℤ) → execute held (connect_client id zone) t ≡ some t)
login_late_example = login_late working 5 [] ann ann ready 1 refl
