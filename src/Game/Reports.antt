-- ===== src/Game/Reports.antt =====
-- The load reports of a game server (`SendZoneLoads` of servjuego/src/GameServer.cpp) as the control
-- server receives them (servcontrol/src/ServerLoad.cpp).
use pxc_prop_strikes_back.Base.{
  ℕ, suc, ◌-◌, ◌<◌, ◌≡◌, refl, ◌∙◌, ℤ, pos, true, false, List, [], ◌∷◌, some, eq_int, Doubles, Map,
  find, put, nat_key, length, arith, Bool-cases, Option-cases, inl, inr,
}
use pxc_prop_strikes_back.Game.Handler.{Handler}
use pxc_prop_strikes_back.Game.Server.{Conn, Sent, load_answer, forwarded, zone_loads}
use pxc_prop_strikes_back.Control.State.{Ref, Server, Control}
use pxc_prop_strikes_back.Control.Loads.{enter_load, load_received, server_load_received}
use pxc_prop_strikes_back.Control.Waiting.{
  bit, bit-clear_bit_self, server_ids, server_ids-put, mem_int, load_received_known,
}
use pxc_prop_strikes_back.Control.Reports.{
  Report, report_all, load_received_more, load_received_skip,
}

module _ {D : Type 0} ⦃double : Doubles D⦄ where
  -- The load answers among what was sent, as they arrive.
  abbrev pub arriving : List (Sent D) → List (Report D)
  arriving [] = []
  arriving (load_answer c server zone load remaining ∷ xs) =
      record { server = server; zone = zone; load = load; remaining = remaining } ∷ arriving xs
  arriving (forwarded c m ∷ xs) = arriving xs

  -- A report that is not the last changes neither the list of servers nor their ids.
  load_received_inner :
      (ps : List Ref) (ids : List ℤ) (id zone : ℤ) (load : D) (remaining : ℤ) (r : Control D)
      → server_ids ps r.heap ≡ some ids
      → eq_int remaining (pos 0) ≡ false
      → (t : Control D) × (load_received ps id zone load remaining r ≡ some t)
        × (t.servers ≡ r.servers)
        × ((qs : List Ref) → server_ids qs t.heap ≡ server_ids qs r.heap)
  unfolding load_received
  load_received_inner [] ids id zone load remaining r e more = (r, refl, refl, λ qs. refl)
  load_received_inner (p ∷ ps) ids id zone load remaining r e more =
      elim (Option-cases (find p r.heap)) [
        | inl f ↦ absurd (ground arith)
        | inr (s, f) ↦ elim (Option-cases (server_ids ps r.heap)) [
          | inl g ↦ absurd (ground arith)
          | inr (rest, g) ↦ elim (Bool-cases (eq_int s.id id)) [
            | inr other ↦
                let (t, h, a, b) = load_received_inner ps rest id zone load remaining r g more in
                (t, load_received_skip p ps id zone load remaining r s f other ∙ h, a, b)
            | inl at ↦
                let zones = enter_load zone load s.distribution s.total_load in
                let s' : Server D = record s { distribution = zones.0; total_load = zones.1 } in
                let r' : Control D = record r { heap = put p s' r.heap } in
                let ids' : (qs : List Ref) → server_ids qs r'.heap ≡ server_ids qs r.heap =
                  λ qs. server_ids-put p s s' r.heap qs f refl in
                let (t, h, a, b) =
                  load_received_inner ps rest id zone load remaining r' (ids' ps ∙ g) more in
                (
                  t,
                  load_received_more p ps id zone load remaining r s f at more ∙ h,
                  a,
                  λ qs. b qs ∙ ids' qs,
                )
          ]
        ]
      ]

  -- The loads that a game server with some zone sends, when the control server asks, all arrive at a
  -- control server that has the game server in its list, with live servers and an id under 32: none
  -- of them faults, and the control server no longer waits for this one.
  pub zone_loads_arrive :
      (c : Conn) (k : ℕ) (zones : Map ℤ (Handler D)) (ids : List ℤ) (r : Control D)
      → 0 < length zones
      → server_ids r.servers r.heap ≡ some ids
      → mem_int (pos k) ids ≡ true
      → k < 32
      → (t : Control D) × (report_all (arriving (zone_loads c (pos k) zones (length zones))) r
          ≡ some t)
        × (bit k t.received_mask ≡ false)
  unfolding zone_loads server_load_received
  zone_loads_arrive c k [] ids r some_zone e known small = absurd (omega arith)
  zone_loads_arrive c k ((zone, h) ∷ []) ids r some_zone e known small =
      let (t, f, (mask, _, _)) = load_received_known r.servers ids k zone h.load r e known small in
      (t, rw f refl, rw mask (bit-clear_bit_self k r.received_mask))
  zone_loads_arrive c k ((zone, h) ∷ next ∷ zones) ids r some_zone e known small =
      let left : ℕ = length (next ∷ zones) in
      let more : eq_int (pos left) (pos 0) ≡ false = ground arith in
      let (t, f, servers, same) =
        load_received_inner r.servers ids (pos k) zone h.load (pos left) r e more in
      let (u, g, off) =
        zone_loads_arrive c k (next ∷ zones) ids t (omega arith) (rw servers (same r.servers ∙ e))
          known small in
      let same_left : suc left - 1 ≡ left = omega arith in (u, rw same_left (rw f g), off)
