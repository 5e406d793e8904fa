-- ===== src/Control/FrontServer.antt =====
-- The zones that do not divide evenly go to the front server; the whole assignment.
use pxc_prop_strikes_back.Base.{
  ℕ, zero, suc, ◌+◌, ◌-◌, ◌%◌, ◌<◌, ◌≤◌, ◌≡◌, ◌≢◌, refl, ◌∙◌, Bool, true, false, List, [], ◌∷◌,
  some, ◌==◌, find, nat_key, arith, Bool-cases, inl, inr, ==_iff, Doubles,
}
use native.Mathlib.Nat.{mod-eq_of_lt}
use pxc_prop_strikes_back.Control.State.{Conn, Ref, Server, Control, nzones}
use pxc_prop_strikes_back.Control.Assignment.{done, front_turn, front_loop, rounds, zone_assignment}
use pxc_prop_strikes_back.Control.Coverage.{
  IsCovered, AllLive, give_zone_lem, link_online_lem, IsReady,
}
use pxc_prop_strikes_back.Control.Rounds.{rounds_lem, Covered-next}

module _ {D : Type 0} ⦃double : Doubles D⦄ (online : ℕ → Conn → Bool)
    (up : (t : ℕ) (c : Conn) → online t c ≡ true) where
  -- The first zones are the front server's.
  abbrev IsFronts : Ref → ℕ → Control D → Type 0
  IsFronts p i r = (j : ℕ) → j < i → find j r.zone_server ≡ some p

  -- Where the first loop stands.
  abbrev IsFrontLoop : Ref → ℕ → ℕ → Control D → Type 0
  IsFrontLoop p i left r =
      (left + i ≡ nzones)
      × IsCovered 0 i r
      × IsReady r
      × IsFronts p i r
      × ((s : Server D) × (find p r.heap ≡ some s))

  front_turn_lem :
      (i left : ℕ) (p : Ref) (r : Control D)
      → i < nzones
      → IsFrontLoop p i left r
      → (t : Control D) × (front_turn online i p left r ≡ some (left - 1, t))
        × IsFrontLoop p (suc i) (left - 1) t
  unfolding front_turn
  front_turn_lem i left p r small (sum, cov, ready, fronts, (s, e)) =
      let r' : Control D = record r { clock = suc r.clock } in
      let (t, f, given) = give_zone_lem i p r' s small e in
      let (_, _, lives, same, others, here) = given in
      (
        t,
        rw (link_online_lem online p r s up e, f) refl,
        (
          omega arith,
          Covered-next online up 0 i p r' t cov given,
          (rw same ready.0, rw same (lives r.servers ready.1)),
          λ j h. elim (Bool-cases (j == i)) [
            | inl at ↦ let eq : j ≡ i = ground (arith, ==_iff j i) in rw eq here
            | inr ne ↦
                let other : j ≢ i = ground (arith, ==_iff j i) in
                others j other ∙ fronts j (omega arith)
          ],
          (lives (p ∷ []) ((s, e), tt)).0,
        ),
      )

  front_loop_lem :
      (n i m left : ℕ) (p : Ref) (r : Control D)
      → i + n ≡ m
      → m ≤ nzones
      → IsFrontLoop p i left r
      → (left' : ℕ) × (t : Control D) × (front_loop online n i p left r ≡ some (left', t))
        × IsFrontLoop p m left' t
  unfolding front_loop
  front_loop_lem zero i m left p r eq bound good =
      let same : i ≡ m = omega arith in (left, r, refl, rw (← same) good)
  front_loop_lem (suc n) i m left p r eq bound good =
      let (t, e, next) = front_turn_lem i left p r (omega arith) good in
      rw e (front_loop_lem n (suc i) m (left - 1) p t (omega arith) bound next)

  -- As many zones as the remainder are the front server's when the second loop starts.
  started :
      (r : Control D) (p : Ref) (ps : List Ref)
      → r.servers ≡ p ∷ ps
      → AllLive (p ∷ ps) r.heap
      → (left : ℕ) × (t : Control D) × (front_loop online (nzones % r.number_servers) 0 p nzones r
          ≡ some (left, t))
        × IsFrontLoop p (nzones % r.number_servers) left t
  started r p ps e live =
      let remainder : ℕ = nzones % r.number_servers in
      front_loop_lem remainder 0 remainder nzones p r (omega arith) (omega arith) (
        refl,
        λ i a b. absurd (omega arith),
        (rw e (omega arith), rw e live),
        λ j h. absurd (omega arith),
        live.0,
      )

  -- The assignment of the zones, when no link goes down: with at least one server and a number of
  -- servers that is not 0, as much fuel as there are zones is enough for the two loops to return,
  -- and then every zone has a server in the table and that server has a load entry for it.
  pub zone_assignment_lem :
      (fuel : ℕ) (r : Control D) (p : Ref) (ps : List Ref)
      → nzones ≤ fuel
      → r.number_servers ≢ 0
      → r.servers ≡ p ∷ ps
      → AllLive (p ∷ ps) r.heap
      → (t : Control D) × (zone_assignment online fuel r ≡ some (done t)) × IsCovered 0 nzones t
  unfolding zone_assignment
  zone_assignment_lem fuel r p ps enough some_servers e live =
      let (left, t, f, (sum, cov, ready, _, _)) = started r p ps e live in
      let not_zero : (r.number_servers == 0) ≡ false = ground (arith, ==_iff r.number_servers 0) in
      rw (not_zero, e, f)
        (rounds_lem online up fuel (nzones % r.number_servers) left t (omega arith) (omega arith)
          (omega arith) cov ready)

  rounds_done :
      (n z left : ℕ) (t : Control D) → left ≡ 0 → rounds online (suc n) z left t ≡ some (done t)
  unfolding rounds
  rounds_done n z left t e = rw e refl

  -- With more servers than zones, and no link that goes down, the front server gets every zone.
  pub zone_assignment_crowded :
      (fuel : ℕ) (r : Control D) (p : Ref) (ps : List Ref)
      → 1 ≤ fuel
      → nzones < r.number_servers
      → r.servers ≡ p ∷ ps
      → AllLive (p ∷ ps) r.heap
      → (t : Control D) × (zone_assignment online fuel r ≡ some (done t))
        × ((i : ℕ) → i < nzones → find i t.zone_server ≡ some p)
  unfolding zone_assignment
  zone_assignment_crowded zero r p ps enough many e live = absurd (omega arith)
  zone_assignment_crowded (suc fuel) r p ps enough many e live =
      let (left, t, f, (sum, cov, ready, fronts, _)) = started r p ps e live in
      let not_zero : (r.number_servers == 0) ≡ false = ground (arith, ==_iff r.number_servers 0) in
      let all_zones : nzones % r.number_servers ≡ nzones = mod-eq_of_lt many in
      let none_left : left ≡ 0 = omega arith in
      (
        t,
        rw (not_zero, e, f) (rounds_done fuel (nzones % r.number_servers) left t none_left),
        rw all_zones at fronts,
      )
