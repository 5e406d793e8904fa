-- ===== src/Control/Coverage.antt =====
-- Every zone of the world gets a server, when the links of the servers stay up.
use pxc_prop_strikes_back.Base.{
  ℕ, suc, ◌<◌, ◌≤◌, pos, ◌≡◌, ◌≢◌, refl, sym, ap, ◌∙◌, Bool, true, false, ◌||◌, List, [], ◌∷◌, ◌++◌,
  some, ltb, ◌==◌, find, put, nat_key, Map, eq_int, eq_int_iff, arith, find-put_self, find-put_ne,
  find-put_live, Bool-cases, inl, inr, length, ==_iff, Doubles,
}
use pxc_prop_strikes_back.Control.State.{
  Conn, Ref, ZoneLoad, Server, Control, sends, set_zone_to_server, nzones,
}
use pxc_prop_strikes_back.Control.Assignment.{give_zone, link_online}

module _ {D : Type 0} where
  abbrev pub has_zone : ℕ → List (ZoneLoad D) → Bool
  has_zone i [] = false
  has_zone i (z ∷ zs) = eq_int z.zone (pos i) || has_zone i zs

  has_zone-append_old :
      (i : ℕ) (zs ys : List (ZoneLoad D)) → has_zone i zs ≡ true → has_zone i (zs ++ ys) ≡ true
  has_zone-append_old i [] ys h = absurd (ground arith)
  has_zone-append_old i (z ∷ zs) ys h = ground (arith, has_zone-append_old i zs ys)

  has_zone-append_new :
      (i : ℕ) (zs : List (ZoneLoad D)) (z : ZoneLoad D)
      → z.zone ≡ pos i
      → has_zone i (zs ++ z ∷ []) ≡ true
  has_zone-append_new i [] z h = ground (arith, eq_int_iff z.zone (pos i))
  has_zone-append_new i (y ∷ ys) z h = ground (arith, has_zone-append_new i ys z h)

  -- Zone `i` has a server in the table, and that server has a load entry for it.
  abbrev pub IsOwned : ℕ → Control D → Type 0
  IsOwned i r =
      (p : Ref) × (find i r.zone_server ≡ some p)
      × (s : Server D) × (find p r.heap ≡ some s)
      × (has_zone i s.distribution ≡ true)

  abbrev pub IsCovered : ℕ → ℕ → Control D → Type 0
  IsCovered lo hi r = (i : ℕ) → lo ≤ i → i < hi → IsOwned i r

  -- The pointers of a list of servers are live.
  abbrev pub AllLive : List Ref → Map Ref (Server D) → Type 0
  AllLive [] m = Unit {0}
  AllLive (p ∷ ps) m = ((s : Server D) × (find p m ≡ some s)) × AllLive ps m

  -- There is a server, and the servers' pointers are live.
  abbrev pub IsReady : Control D → Type 0
  IsReady r = (1 ≤ length r.servers) × AllLive r.servers r.heap

module _ {D : Type 0} ⦃double : Doubles D⦄ where
  abbrev HasEntry : ℕ → Server D → Type 0
  HasEntry i s = has_zone i s.distribution ≡ true

  -- What giving a zone does: the zone is owned, owned zones stay owned, and live servers live.
  abbrev pub Given : ℕ → Ref → Control D → Control D → Type 0
  Given i p r t =
      IsOwned i t
      × ((j : ℕ) → IsOwned j r → IsOwned j t)
      × ((ps : List Ref) → AllLive ps r.heap → AllLive ps t.heap)
      × (t.servers ≡ r.servers)
      × ((j : ℕ) → j ≢ i → find j t.zone_server ≡ find j r.zone_server)
      × (find i t.zone_server ≡ some p)

  given-IsOwned :
      (i j : ℕ) (p : Ref) (r : Control D) (s s' : Server D)
      → find p r.heap ≡ some s
      → (HasEntry j s → HasEntry j s')
      → HasEntry i s'
      → IsOwned j r
      → IsOwned j (record r { heap = put p s' r.heap; zone_server = put i p r.zone_server })
  given-IsOwned i j p r s s' e grow new (q, a, s2, b, c) = elim (Bool-cases (i == j)) [
    | inl same ↦
        let at : i ≡ j = ground (arith, ==_iff i j) in
        (
          p,
          rw (← at) (find-put_self i p r.zone_server),
          s',
          find-put_self p s' r.heap,
          rw (← at) new,
        )
    | inr other ↦
        let ne : i ≢ j = ground (arith, ==_iff i j) in
        let kept =
          find-put_live (HasEntry j) p q s' r.heap
            (λ at.
              grow
                (let same : s2 ≡ s = ground (arith, ap (λ k. find k r.heap) at) in rw (← same) c))
            (s2, b, c) in
        (q, find-put_ne i j p r.zone_server ne ∙ a, kept.0, kept.1, kept.2)
  ]

  put-AllLive :
      (p : Ref) (s' : Server D) (m : Map Ref (Server D)) (ps : List Ref)
      → AllLive ps m
      → AllLive ps (put p s' m)
  put-AllLive p s' m [] h = tt
  put-AllLive p s' m (q ∷ qs) ((s, e), h) =
      let (w, f, _) = find-put_live (λ _. Unit {0}) p q s' m (λ _. tt) (s, e, tt) in
      ((w, f), put-AllLive p s' m qs h)

  pub give_zone_lem :
      (i : ℕ) (p : Ref) (r : Control D) (s : Server D)
      → i < nzones
      → find p r.heap ≡ some s
      → (t : Control D) × (give_zone i p r ≡ some t) × Given i p r t
  unfolding give_zone
  give_zone_lem i p r s h e =
      let s' : Server D = record s {
        distribution = s.distribution ++ record { zone = pos i; load = double.zero } ∷ [];
        total_load = double.zero;
      } in
      let small : ltb i nzones ≡ true = ground arith in
      let entry : ZoneLoad D = record { zone = pos i; load = double.zero } in
      let new_entry : HasEntry i s' = has_zone-append_new i s.distribution entry refl in
      (
        record r {
          heap = put p s' r.heap;
          zone_server = put i p r.zone_server;
          events = r.events ++ sends s.connection (set_zone_to_server (pos i) s.id) ∷ [];
        },
        rw (e, small) refl,
        (
          (p, find-put_self i p r.zone_server, s', find-put_self p s' r.heap, new_entry),
          λ j own.
              given-IsOwned i j p r s s' e (has_zone-append_old j s.distribution (entry ∷ []))
                new_entry own,
          λ ps h. put-AllLive p s' r.heap ps h,
          refl,
          λ j ne. find-put_ne i j p r.zone_server (λ q. ne (sym q)),
          find-put_self i p r.zone_server,
        ),
      )

  pub link_online_lem :
      (online : ℕ → Conn → Bool) (p : Ref) (r : Control D) (s : Server D)
      → ((t : ℕ) (c : Conn) → online t c ≡ true)
      → find p r.heap ≡ some s
      → link_online online p r ≡ some (true, record r { clock = suc r.clock })
  unfolding link_online
  link_online_lem online p r s up e = rw (e, up r.clock s.connection) refl
