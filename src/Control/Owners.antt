-- ===== src/Control/Owners.antt =====
-- What follows from a table of owners that is full, and how the table is left by the balancing.
use pxc_prop_strikes_back.Base.{
  ℕ, suc, ◌+◌, ◌<◌, ◌≤◌, ℤ, pos, minus_one, ◌≡◌, ◌≢◌, refl, Bool, true, false, List, [], ◌∷◌, ◌++◌,
  none, some, ltb, find, put, nat_key, arith, Bool-cases, inl, inr, ◌⊎◌, length, Doubles,
}
use pxc_prop_strikes_back.Control.State.{
  Conn, Ref, ZoneLoad, Server, Control, sends, router_new_user, game_new_user, remove_zone,
  get_zone, router_change_zone, nzones,
}
use pxc_prop_strikes_back.Control.Assignment.{done, zone_assignment}
use pxc_prop_strikes_back.Control.Coverage.{IsOwned, AllLive}
use pxc_prop_strikes_back.Control.FrontServer.{zone_assignment_lem}
use pxc_prop_strikes_back.Control.Users.{zone_owner, new_user_received}
use pxc_prop_strikes_back.Control.Balance.{min_load, zone_change, write_owner, balance_once, sort}

module _ {D : Type 0} where
  -- A user whose zone has an owner is announced to the router and to the owner.
  new_user_received_lem :
      (zone_db : ℤ → ℤ) (user token : ℤ) (i : ℕ) (r : Control D)
      → zone_db user ≡ pos i
      → i < nzones
      → IsOwned i r
      → (p : Ref) × (s : Server D) × (t : Control D) × (find i r.zone_server ≡ some p)
        × (find p r.heap ≡ some s)
        × (new_user_received zone_db user token r ≡ some t)
        × (t.events
            ≡ r.events
              ++ sends r.router_connection (router_new_user user token (pos i))
                ∷ sends s.connection (game_new_user user (pos i))
                ∷ [])
  unfolding new_user_received zone_owner
  new_user_received_lem zone_db user token i r zone small (p, a, s, b, _) =
      let inside : ltb i nzones ≡ true = ground arith in
      (
        p,
        s,
        record r {
          events =
              r.events
              ++ sends r.router_connection (router_new_user user token (pos i))
                ∷ sends s.connection (game_new_user user (pos i))
                ∷ [];
        },
        a,
        b,
        rw (zone, inside, a, b) refl,
        refl,
      )

  -- A user that the database does not know has zone -1: the table is read outside of its bounds.
  pub new_user_unknown :
      (zone_db : ℤ → ℤ) (user token : ℤ) (r : Control D)
      → zone_db user ≡ minus_one
      → new_user_received zone_db user token r ≡ none
  unfolding new_user_received zone_owner
  new_user_unknown zone_db user token r zone = rw zone refl

module _ {D : Type 0} ⦃double : Doubles D⦄ where
  -- When all links are up, with at least one server and a number of servers that is not 0, the
  -- zones are assigned, and then every user whose zone in the database is one of the world's is
  -- announced to the router and to the game server that the table has for the zone.
  pub new_user_after_assignment :
      (online : ℕ → Conn → Bool) (fuel : ℕ) (r : Control D) (p : Ref) (ps : List Ref)
      (zone_db : ℤ → ℤ) (user token : ℤ) (i : ℕ)
      → ((t : ℕ) (c : Conn) → online t c ≡ true)
      → nzones ≤ fuel
      → r.number_servers ≢ 0
      → r.servers ≡ p ∷ ps
      → AllLive (p ∷ ps) r.heap
      → zone_db user ≡ pos i
      → i < nzones
      → (t : Control D) × (zone_assignment online fuel r ≡ some (done t))
        × (q : Ref) × (s : Server D) × (u : Control D) × (find i t.zone_server ≡ some q)
        × (find q t.heap ≡ some s)
        × (new_user_received zone_db user token t ≡ some u)
        × (u.events
            ≡ t.events
              ++ sends t.router_connection (router_new_user user token (pos i))
                ∷ sends s.connection (game_new_user user (pos i))
                ∷ [])
  new_user_after_assignment online fuel r p ps zone_db user token i up enough some_servers e live
        zone small =
      let (t, f, cov) = zone_assignment_lem online up fuel r p ps enough some_servers e live in
      let (q, s, u, a, b, c, d) =
        new_user_received_lem zone_db user token i t zone small (cov i (omega arith) small) in
      (t, f, q, s, u, a, b, c, d)

  -- No load is under 1.
  abbrev pub AllBusy : List (ZoneLoad D) → Type 0
  AllBusy [] = Unit {0}
  AllBusy (z ∷ zs) = (double.less z.load double.one ≡ false) × AllBusy zs

  min_load-AllBusy :
      (zs : List (ZoneLoad D)) (i : ℕ) (at : ℤ) → AllBusy zs → min_load zs i double.one at ≡ at
  unfolding min_load
  min_load-AllBusy [] i at busy = refl
  min_load-AllBusy (z ∷ zs) i at (here, busy) = rw here (min_load-AllBusy zs (suc i) at busy)

  -- An iteration of the balancing faults if the most loaded server has no load under 1, or no zone
  -- at all: the table is written at the position -1.
  pub balance_overloaded :
      (before : Ref → Ref → Bool) (most least : Ref) (s d : Server D) (r : Control D)
      → find most r.heap ≡ some s
      → find least r.heap ≡ some d
      → AllBusy s.distribution
      → balance_once before most least s r ≡ none
  unfolding balance_once zone_change write_owner
  balance_overloaded before most least s d r a b busy =
      rw (min_load-AllBusy s.distribution 0 minus_one busy, a, b) refl

  -- The least load is at a position of the list, or nowhere.
  min_load_position :
      (zs : List (ZoneLoad D)) (i : ℕ) (least : D) (at : ℤ)
      → (min_load zs i least at ≡ at)
        ⊎ ((j : ℕ) × (min_load zs i least at ≡ pos j) × (i ≤ j) × (j < i + length zs))
  unfolding min_load
  min_load_position [] i least at = inl refl
  min_load_position (z ∷ zs) i least at = elim (Bool-cases (double.less z.load least)) [
    | inl smaller ↦ elim (min_load_position zs (suc i) z.load (pos i)) [
      | inl e ↦ inr (i, rw smaller e, omega arith, omega arith)
      | inr (j, e, low, high) ↦ inr (j, rw smaller e, omega arith, omega arith)
    ]
    | inr larger ↦ elim (min_load_position zs (suc i) least at) [
      | inl e ↦ inl (rw larger e)
      | inr (j, e, low, high) ↦ inr (j, rw larger e, omega arith, omega arith)
    ]
  ]

  -- An iteration of the balancing that returns: the zone that is moved is named by its position in
  -- the loads of the most loaded server, whatever zone stands there, and the table is written at it.
  pub balance_once_position :
      (before : Ref → Ref → Bool) (most least : Ref) (s d : Server D) (r t : Control D)
      → find most r.heap ≡ some s
      → find least r.heap ≡ some d
      → balance_once before most least s r ≡ some t
      → (i : ℕ) × (i < length s.distribution)
        × (i < nzones)
        × (t.zone_server ≡ put i least r.zone_server)
        × (t.events
            ≡ r.events
              ++ sends s.connection (remove_zone (pos i))
                ∷ sends d.connection (get_zone (pos i) s.id)
                ∷ sends r.router_connection (router_change_zone (pos i) s.id d.id)
                ∷ [])
  unfolding balance_once zone_change write_owner
  balance_once_position before most least s d r t a b e =
      elim (min_load_position s.distribution 0 double.one minus_one) [
        | inl nowhere ↦
            let fault : balance_once before most least s r ≡ none = rw (nowhere, a, b) refl in
            absurd (ground arith)
        | inr (i, here, _, below) ↦ elim (Bool-cases (ltb i nzones)) [
          | inr outside ↦
              let fault : balance_once before most least s r ≡ none =
                rw (here, a, b, outside) refl in
              absurd (ground arith)
          | inl inside ↦
              let moved : Control D = record r {
                events =
                    r.events
                    ++ sends s.connection (remove_zone (pos i))
                      ∷ sends d.connection (get_zone (pos i) s.id)
                      ∷ sends r.router_connection (router_change_zone (pos i) s.id d.id)
                      ∷ [];
                zone_server = put i least r.zone_server;
                servers = sort before r.servers;
              } in
              let result : balance_once before most least s r ≡ some moved =
                rw (here, a, b, inside) refl in
              let same : moved ≡ t = ground arith in
              (i, omega arith, ground arith, rw (← same) refl, rw (← same) refl)
        ]
      ]
