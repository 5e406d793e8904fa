-- ===== src/Game/Reached.antt =====
-- What a game server becomes by the instructions that it receives (servjuego/src/GameServer.cpp,
-- InstControl.cpp, InstRouter.cpp).
use pxc_prop_strikes_back.Base.{
  ◌≡◌, ◌≢◌, refl, ap, ◌∙◌, ℕ, ℤ, minus_one, true, false, List, [], ◌∷◌, some, eq_int, eq_int_iff,
  Doubles, find, int_key, Bool-cases, Option-cases, inl, inr, arith, append-nil, insert_fresh,
  find-put_self, find-put_ne,
}
use pxc_prop_strikes_back.Game.Handler
use pxc_prop_strikes_back.Game.Handler.{Handler, Defaults}
use pxc_prop_strikes_back.Game.Server.{
  Conn, Game, Instruction, server_load_order, set_zone_order, get_zone_order, set_server_ip,
  set_zone_to_server, add_user, del_user, add_router, new_game, execute, router_callback,
  control_callback, queue_instruction, send_to_clients, forward, send_zone_loads,
  set_zone_to_server_received, set_server_id, start_zone,
}

-- An instruction that arrives over a connection: from the control server, or from a router for a
-- zone.
pub data Arrival : Type 0 where
  control : Instruction → Conn → Arrival
  router : ℤ → Instruction → Conn → Arrival

module _ {D : Type 0} ⦃double : Doubles D⦄ (d : Defaults D) where
  unfoldable pub receive : Arrival → Game D → Game D
  unfolding control_callback router_callback
  receive (control i c) g = control_callback d i c g
  receive (router target i c) g = router_callback target i c g

  unfoldable pub receive_all : List Arrival → Game D → Game D
  unfolding receive
  receive_all [] g = g
  receive_all (x ∷ xs) g = receive_all xs (receive x g)

  -- No client and no router.
  abbrev IsDeaf : Game D → Type 0
  IsDeaf g = (g.routers ≡ []) × (g.clients ≡ [])

  set_zone_to_server_received-IsDeaf :
      (zone server : ℤ) (g : Game D)
      → IsDeaf g
      → IsDeaf (set_zone_to_server_received d zone server g)
  unfolding set_zone_to_server_received set_server_id start_zone
  set_zone_to_server_received-IsDeaf zone server g (a, b) =
      elim (Bool-cases (eq_int g.server_id minus_one)) [
        | inl fresh ↦ elim (Option-cases (find zone g.zones)) [
          | inl e ↦ elim (Bool-cases (eq_int server server)) [
            | inl f ↦ rw (fresh, f, e) (a, b)
            | inr f ↦ rw (fresh, f) (a, b)
          ]
          | inr (h, e) ↦ elim (Bool-cases (eq_int server server)) [
            | inl f ↦ rw (fresh, f, e) (a, b)
            | inr f ↦ rw (fresh, f) (a, b)
          ]
        ]
        | inr named ↦ elim (Bool-cases (eq_int g.server_id server)) [
          | inr other ↦ rw (named, other) (a, b)
          | inl own ↦ elim (Option-cases (find zone g.zones)) [
            | inl e ↦ rw (named, own, e) (a, b)
            | inr (h, e) ↦ rw (named, own, e) (a, b)
          ]
        ]
      ]

  receive-IsDeaf : (x : Arrival) (g : Game D) → IsDeaf g → IsDeaf (receive x g)
  unfolding receive execute send_zone_loads queue_instruction
  receive-IsDeaf (control server_load_order c) g h = h
  receive-IsDeaf (control set_zone_order c) g h = h
  receive-IsDeaf (control get_zone_order c) g h = h
  receive-IsDeaf (control set_server_ip c) g h = h
  receive-IsDeaf (control (set_zone_to_server zone server) c) g h =
      set_zone_to_server_received-IsDeaf zone server g h
  receive-IsDeaf (control (add_user user zone) c) g h = h
  receive-IsDeaf (control (del_user user) c) g h = h
  receive-IsDeaf (control add_router c) g h = h
  receive-IsDeaf (router target i c) g h = elim (Option-cases (find target g.zones)) [
    | inl e ↦ rw e h
    | inr (z, e) ↦ rw e h
  ]

  receive_all-IsDeaf : (xs : List Arrival) (g : Game D) → IsDeaf g → IsDeaf (receive_all xs g)
  unfolding receive_all
  receive_all-IsDeaf [] g h = h
  receive_all-IsDeaf (x ∷ xs) g h = receive_all-IsDeaf xs (receive x g) (receive-IsDeaf x g h)

  -- Whatever a game server receives after its start, it has no client and no router, and what it
  -- sends to its clients goes to nobody.
  pub receive_all_deaf :
      (xs : List Arrival) (m : ℕ)
      → ((receive_all xs new_game).clients ≡ [])
        × ((receive_all xs new_game).routers ≡ [])
        × ((send_to_clients m (receive_all xs new_game)).sent ≡ (receive_all xs new_game).sent)
  unfolding new_game send_to_clients forward
  receive_all_deaf xs m =
      let (routers, clients) = receive_all-IsDeaf xs new_game (refl, refl) in
      (clients, routers, rw routers (append-nil (receive_all xs new_game).sent))

  -- A game server with an id that is not -1 is ordered to take a zone: an order for its id leaves it
  -- with the zone, and with the zones that it had as they were; an order for another id changes
  -- nothing.
  pub set_zone_to_server_received_lem :
      (zone server : ℤ) (g : Game D)
      → g.server_id ≢ minus_one
      → (g.server_id ≡ server
          → ((h : Handler D) × (find zone (set_zone_to_server_received d zone server g).zones
                ≡ some h))
            × ((k : ℤ) (h : Handler D)
                → find k g.zones ≡ some h
                → find k (set_zone_to_server_received d zone server g).zones ≡ some h))
        × (g.server_id ≢ server → set_zone_to_server_received d zone server g ≡ g)
  unfolding set_zone_to_server_received start_zone
  set_zone_to_server_received_lem zone server g has_id =
      let named : eq_int g.server_id minus_one ≡ false =
        ground (arith, eq_int_iff g.server_id minus_one) in
      (
        λ own.
            let here : eq_int g.server_id server ≡ true = (eq_int_iff g.server_id server).1 own in
            elim (Option-cases (find zone g.zones)) [
              | inr (h, e) ↦ rw (named, here, e) ((h, e), λ k h' f. f)
              | inl e ↦
                  rw (named, here, e)
                    (rw (insert_fresh zone (Handler.new d) g.zones e) (
                      (Handler.new d, find-put_self zone (Handler.new d) g.zones),
                      λ k h' f.
                          find-put_ne zone k (Handler.new d) g.zones
                            (λ same. ground (arith, ap (λ j. find j g.zones) same))
                          ∙ f,
                    ))
            ],
        λ other.
            let elsewhere : eq_int g.server_id server ≡ false =
              ground (arith, eq_int_iff g.server_id server) in
            rw (named, elsewhere) refl,
      )
