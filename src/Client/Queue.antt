-- ===== src/Client/Queue.antt =====
-- The queue of the client's game and `mGameMutex` (cliente/src/Client.cpp).
use pxc_prop_strikes_back.Base.{
  ◌≡◌, refl, ℤ, true, List, [], ◌∷◌, ◌++◌, Option, none, some, ◌&&◌, eq_int, Option-cases,
  Bool-cases, inl, inr, ◌⊎◌, pos,
}
use pxc_prop_strikes_back.Client.State.{
  Conn, Instruction, login_answer, connect_client, set_user_status, set_zone, Client, ClientGame,
  set_zone_of, router_connection,
}
use pxc_prop_strikes_back.Client.Instructions.{
  execute, exec_queue, step, add_instruction, login_request_received, connect_client_received,
  set_user_status_received,
}

-- With a game; the instructions leave it with one.
abbrev HasGame : Client → Type 0
HasGame s = (g : ClientGame) × (s.game ≡ some g)

login_request_received-HasGame :
    (code id token : ℤ) (dialled : Option Conn) (s : Client)
    → HasGame s
    → HasGame (login_request_received code id token dialled s)
unfolding login_request_received router_connection
login_request_received-HasGame code id token none s (g, e) =
    (g, elim (Bool-cases (eq_int code (pos 0))) [ inl b ↦ simp b e | inr b ↦ simp b e ])
login_request_received-HasGame code id token (some c) s (g, e) = (
  g,
  elim (Bool-cases (eq_int code (pos 0))) [
    | inr b ↦ simp b e
    | inl b ↦ elim (Option-cases s.router) [ inl f ↦ simp (b, f) e | inr (old, f) ↦ simp (b, f) e ]
  ],
)

set_user_status_received-HasGame :
    (user zone : ℤ) (s : Client) → HasGame s → HasGame (set_user_status_received user zone s)
unfolding set_user_status_received
set_user_status_received-HasGame user zone s (g, e) = elim (Bool-cases (eq_int g.zone zone)) [
  | inl b ↦ (record g { updates = g.updates ++ user ∷ [] }, simp (e, b) refl)
  | inr b ↦ (g, simp (e, b) refl)
]

-- Under the mutex an instruction faults or leaves the client with a game.
execute-HasGame :
    (i : Instruction) (s : Client)
    → HasGame s
    → (execute true i s ≡ none) ⊎ ((t : Client) × (execute true i s ≡ some t) × HasGame t)
unfolding execute connect_client_received set_zone_of
execute-HasGame (login_answer code id token dialled) s h =
    inr (_, refl, login_request_received-HasGame code id token dialled s h)
execute-HasGame (connect_client id zone) s (g, e) =
    elim (Bool-cases (eq_int s.user_id id && s.is_on_login)) [
      | inl b ↦ inl (simp (b, e))
      | inr b ↦ inr (s, simp b refl, (g, e))
    ]
execute-HasGame (set_user_status user zone) s h =
    inr (_, refl, set_user_status_received-HasGame user zone s h)
execute-HasGame (set_zone zone) s (g, e) = inl (simp e)

exec_queue-faults :
    (is : List Instruction) (zone : ℤ) (s : Client)
    → HasGame s
    → exec_queue (is ++ set_zone zone ∷ []) s ≡ none
unfolding exec_queue execute set_zone_of
exec_queue-faults [] zone s (g, e) = simp e
exec_queue-faults (i ∷ is) zone s h = elim (execute-HasGame i s h) [
  | inl e ↦ rw e refl
  | inr (t, e, k) ↦ rw e (exec_queue-faults is zone t k)
]

-- A change of zone that is queued for a game, behind any other instructions: the game's next valid
-- step faults, since it runs the queue under the mutex that the change of zone locks.
pub add_instruction-set_zone :
    (zone : ℤ) (s : Client) (g : ClientGame)
    → s.game ≡ some g
    → (t : Client) × (add_instruction (set_zone zone) s ≡ some t) × (step true t ≡ none)
unfolding add_instruction step
add_instruction-set_zone zone s g e =
    let g' : ClientGame = record g { instructions = g.instructions ++ set_zone zone ∷ [] } in
    let t : Client = record s { game = some g' } in
    (t, simp e, rw (exec_queue-faults g.instructions zone t (g', refl)) refl)
