-- ===== src/Control/LaterRounds.antt =====
-- The rounds of the main loop after the first one (servcontrol/src/Control.cpp).
use pxc_prop_strikes_back.Base.{
  ℕ, suc, ◌≡◌, ◌≢◌, refl, ap, ◌∙◌, Bool, true, false, List, [], ◌∷◌, ◌++◌, some, ◌>>=◌, ◌==◌,
  ==_iff, find, put, nat_key, find-put_self, find-put_ne, length, replicate, Bool-cases, inl, inr,
  arith, Doubles,
}
use pxc_prop_strikes_back.Control.State.{Conn, Ref, Server, Control, sends, server_load}
use pxc_prop_strikes_back.Control.Loads.{waits, request_loads}
use pxc_prop_strikes_back.Control.Assignment.{link_online}
use pxc_prop_strikes_back.Control.Balance.{loads, rebalance}
use pxc_prop_strikes_back.Control.MainLoop.{Happening, looks, Main, wait_loads, finish_round, round}

module _ {D : Type 0} ⦃double : Doubles D⦄ where
  -- Live servers without any load.
  abbrev AllIdle : List Ref → Control D → Type 0
  AllIdle [] r = Unit {0}
  AllIdle (p ∷ ps) r =
      ((s : Server D) × (find p r.heap ≡ some s) × (s.total_load ≡ double.zero)) × AllIdle ps r

  abbrev AllLive : List Ref → Control D → Type 0
  AllLive [] r = Unit {0}
  AllLive (p ∷ ps) r = ((s : Server D) × (find p r.heap ≡ some s)) × AllLive ps r

  AllIdle-loads :
      (ps : List Ref) (r : Control D)
      → AllIdle ps r
      → loads ps r ≡ some (replicate (length ps) double.zero)
  unfolding loads
  AllIdle-loads [] r h = refl
  AllIdle-loads (p ∷ ps) r ((s, e, idle), rest) = rw (e, AllIdle-loads ps r rest, idle) refl

  -- The loads of each zone at each server are those from before.
  abbrev pub SameZones : Control D → Control D → Type 0
  SameZones r t =
      (q : Ref) (u : Server D)
      → find q r.heap ≡ some u
      → (v : Server D) × (find q t.heap ≡ some v) × (v.distribution ≡ u.distribution)

  -- What the request leaves alone, and sets.
  abbrev Asked : List Ref → List Ref → Control D → Control D → Type 0
  Asked ps done r t =
      AllIdle ps t
      × AllIdle done t
      × (t.servers ≡ r.servers)
      × (t.received_mask ≡ r.received_mask)
      × SameZones r t

  module _ (p : Ref) (s : Server D) (r : Control D) (known : find p r.heap ≡ some s) where
    abbrev unloaded : Server D
    unloaded = record s { total_load = double.zero }

    abbrev asked_one : Control D
    asked_one = record r {
      clock = suc r.clock;
      heap = put p unloaded r.heap;
      events = r.events ++ sends s.connection server_load ∷ [];
    }

    AllLive-asked : (qs : List Ref) → AllLive qs r → AllLive qs asked_one
    AllLive-asked [] h = tt
    AllLive-asked (q ∷ qs) ((u, e), h) = elim (Bool-cases (p == q)) [
      | inl at ↦
          let same : p ≡ q = (==_iff p q).0 at in
          ((unloaded, rw (← same) (find-put_self p unloaded r.heap)), AllLive-asked qs h)
      | inr other ↦
          let ne : p ≢ q = ground (arith, ==_iff p q) in
          ((u, find-put_ne p q _ r.heap ne ∙ e), AllLive-asked qs h)
    ]

    SameZones-asked : SameZones r asked_one
    SameZones-asked q u e = elim (Bool-cases (p == q)) [
      | inl at ↦
          let same : p ≡ q = (==_iff p q).0 at in
          let one : s ≡ u = ground arith in
          (
            unloaded,
            rw (← same) (find-put_self p unloaded r.heap),
            ap (λ (w : Server D). w.distribution) one,
          )
      | inr other ↦
          let ne : p ≢ q = ground (arith, ==_iff p q) in
          (u, find-put_ne p q unloaded r.heap ne ∙ e, refl)
    ]

    AllIdle-asked : (qs : List Ref) → AllIdle qs r → AllIdle qs asked_one
    AllIdle-asked [] h = tt
    AllIdle-asked (q ∷ qs) ((u, e, z), h) = elim (Bool-cases (p == q)) [
      | inl at ↦
          let same : p ≡ q = (==_iff p q).0 at in
          ((unloaded, rw (← same) (find-put_self p unloaded r.heap), refl), AllIdle-asked qs h)
      | inr other ↦
          let ne : p ≢ q = ground (arith, ==_iff p q) in
          ((u, find-put_ne p q _ r.heap ne ∙ e, z), AllIdle-asked qs h)
    ]

  module _ (online : ℕ → Conn → Bool) (up : (n : ℕ) (c : Conn) → online n c ≡ true) where
    request_loads_lem :
        (ps done : List Ref) (r : Control D)
        → AllLive ps r
        → AllIdle done r
        → (t : Control D) × (request_loads online ps r ≡ some t) × Asked ps done r t
    unfolding request_loads link_online
    request_loads_lem [] done r live idle = (r, refl, (tt, idle, refl, refl, λ q u e. (u, e, refl)))
    request_loads_lem (p ∷ ps) done r ((s, e), live) idle =
        let r' = asked_one p s r e in
        let here : AllIdle (p ∷ done) r' = (
          (record s { total_load = double.zero }, find-put_self p _ r.heap, refl),
          AllIdle-asked p s r e done idle,
        ) in
        let (t, f, (asked, (first, kept), servers, mask, zones)) =
          request_loads_lem ps (p ∷ done) r' (AllLive-asked p s r e ps live) here in
        let same : SameZones r t = λ q u g.
          let (v, g', d) = SameZones-asked p s r e q u g in
          let (w, g'', d') = zones q v g' in (w, g'', d' ∙ d) in
        (t, rw (e, up r.clock s.connection, e) f, ((first, asked), kept, servers, mask, same))

    -- A round that starts with an empty mask, with live servers and links that are up: when `main`
    -- looks it waits for no report, and it balances the same servers, whose total loads are all 0,
    -- while the loads of their zones are those from before the round.
    pub round_without_loads :
        (before : Ref → Ref → Bool) (hs : List (Happening D)) (m : Main D)
        → waits m.control.received_mask ≡ false
        → AllLive m.control.servers m.control
        → (r : Control D) × (round online before (looks ∷ hs) m ≡ (
            rebalance before r >>= λ t.
            some (some (record m { control = t; break_flag = false; timeout = true }, hs))))
          × (r.servers ≡ m.control.servers)
          × (loads r.servers r ≡ some (replicate (length r.servers) double.zero))
          × SameZones m.control r
    unfolding round wait_loads finish_round
    round_without_loads before hs m empty live =
        let (r, e, (idle, _, servers, mask, zones)) =
          request_loads_lem m.control.servers [] m.control live tt in
        let off : waits r.received_mask ≡ false = rw mask empty in
        (r, rw (e, off) refl, servers, rw servers (AllIdle-loads m.control.servers r idle), zones)
