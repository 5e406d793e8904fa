-- ===== src/Routing/Leaving.antt =====
-- A zone that leaves a server, when it is deleted and when it moves to another, leaves no pointer
-- to a free cell behind.
use pxc_prop_strikes_back.Base.{
  ◌≡◌, ◌≢◌, ◌∙◌, ap, sym, refl, inl, inr, none, some, arith, ℤ, true, find, put, erase,
  find-put_self, find-put-some, find-put_live, find-erase-some, find-erase_ne, find-erase,
  Option-cases, Bool-cases, int_key, nat_key, on_found, eq_int_iff,
}
use pxc_prop_strikes_back.Routing.Event.{Ref}
use pxc_prop_strikes_back.Routing.Zone
use pxc_prop_strikes_back.Routing.Zone.{Zone}
use pxc_prop_strikes_back.Routing.Server
use pxc_prop_strikes_back.Routing.Server.{Server}
use pxc_prop_strikes_back.Routing.Router.{Router, new, del_zone, end_zone_to_server_transfer}
use pxc_prop_strikes_back.Routing.Sound.{IsSound, put_zone-IsSound, put_server-IsSound}
use pxc_prop_strikes_back.Routing.Keeps.{Kept}

module _ (r : Router) (v : IsSound r) (id : ℤ) (p : Ref) (z : Zone)
    (known : find id r.zones ≡ some p) (cell : find p r.zone_heap ≡ some z) where
  own_id : z.id ≡ id
  own_id = let live = v.zone_live id p known in ground (arith, live.1, live.2)

  -- The server that runs the zone forgets it.
  abbrev left : Router
  left = record r {
    servers =
        on_found (find z.server r.servers) r.servers
          λ s. put z.server (Server.del_zone id s) r.servers;
  }

  left-IsSound : IsSound left
  unfolding Server.del_zone
  left-IsSound = elim (Option-cases (find z.server r.servers)) [
    | inl e ↦ rw e v
    | inr (s, e) ↦ rw e (
        put_server-IsSound r v z.server (Server.del_zone id s)
          (λ j q f. v.server_zone z.server s j q e (find-erase-some id j s.zones f).1))
  ]

  left_own : (s : Server) → find z.server left.servers ≡ some s → find id s.zones ≡ none
  unfolding Server.del_zone
  left_own s e = elim (Option-cases (find z.server r.servers)) [
    | inl f ↦ absurd (ground arith)
    | inr (t, f) ↦ ground (
      arith,
      find-put_self z.server (Server.del_zone id t) r.servers,
      find-erase id id t.zones,
      eq_int_iff id id,
    )
  ]

  -- No server points to it then.
  left_gone :
      (i j : ℤ) (s : Server) (q : Ref)
      → find i left.servers ≡ some s
      → find j s.zones ≡ some q
      → j ≢ id
  left_gone i j s q f g e =
      let (at, own) = left-IsSound.server_zone i s j q f g in
      let same : p ≡ q = ground arith in
      let here : z.server ≡ i = own z (rw (← same) cell) in
      let none_here = left_own s (ap (λ k. find k left.servers) here ∙ f) in ground arith

  -- Two zones are two cells.
  other_cell : (j : ℤ) (q : Ref) → find j r.zones ≡ some q → j ≢ id → p ≢ q
  other_cell j q e ne same =
      let live = v.zone_live j q e in ne (ground (arith, live.1, live.2, own_id))

  del_zone_lem : Kept (del_zone id r)
  unfolding del_zone
  del_zone_lem = (
    record left { zones = erase id r.zones; zone_heap = erase p r.zone_heap },
    rw (known, cell) refl,
    record {
      user_live = v.user_live;
      zone_live = λ i q f.
          let (ne, old) = find-erase-some id i r.zones f in
          let (w, g, same) = v.zone_live i q old in
          (w, find-erase_ne p q r.zone_heap (other_cell i q old (λ t. ne (sym t))) ∙ g, same);
      zone_user = λ q w j k f g. v.zone_user q w j k (find-erase-some p q r.zone_heap f).1 g;
      server_zone = λ i s j q f g.
          let (at, own) = left-IsSound.server_zone i s j q f g in
          (
            find-erase_ne id j r.zones (λ t. left_gone i j s q f g (sym t)) ∙ at,
            λ w h. own w (find-erase-some p q r.zone_heap h).1,
          );
      user_old = v.user_old;
      zone_old = λ q w f. v.zone_old q w (find-erase-some p q r.zone_heap f).1;
    },
  )

  -- The zone moves to a server that is there.
  module _ (new : Server) (there : find z.new_server left.servers ≡ some new)
      (moving : z.in_transfer ≡ true) where
    abbrev arrived : Router
    arrived = record left { zone_heap = put p (Zone.end_transfer z) r.zone_heap }

    arrived-IsSound : IsSound arrived
    unfolding Zone.end_transfer
    arrived-IsSound =
        put_zone-IsSound left left-IsSound p z (Zone.end_transfer z) cell (rw moving refl)
          (rw moving (λ j q f. v.zone_user p z j q cell f))
          (λ i s j f g.
            absurd (
              other_cell j p (left-IsSound.server_zone i s j p f g).0 (left_gone i j s p f g) refl))

    moved_IsSound :
        IsSound
          (record arrived { servers = put z.new_server (Server.add_zone z.id p new) left.servers })
    unfolding Zone.end_transfer Server.add_zone
    moved_IsSound =
        put_server-IsSound arrived arrived-IsSound z.new_server (Server.add_zone z.id p new)
          λ j q f. elim (find-put-some z.id j p new.zones f) [
            | inl (s, t) ↦ (
              ground (arith, own_id),
              λ w h. ground (arith, find-put_self p (Zone.end_transfer z) r.zone_heap),
            )
            | inr (_, old) ↦ arrived-IsSound.server_zone z.new_server new j q there old
          ]

module _ (r : Router) (v : IsSound r) where
  pub del_zone-IsSound : (id : ℤ) → Kept (del_zone id r)
  del_zone-IsSound id = elim (Option-cases (find id r.zones)) [
    | inl e ↦ (r, unfold del_zone in rw e refl, v)
    | inr (p, e) ↦ let live = v.zone_live id p e in del_zone_lem r v id p live.0 e live.1
  ]

  pub end_zone_to_server_transfer-IsSound : (id : ℤ) → Kept (end_zone_to_server_transfer id r)
  unfolding end_zone_to_server_transfer
  end_zone_to_server_transfer-IsSound id = elim (Option-cases (find id r.zones)) [
    | inl e ↦ (r, rw e refl, v)
    | inr (p, e) ↦
        let (z, g, h) = v.zone_live id p e in
        elim (Bool-cases z.in_transfer) [
          | inr still ↦ (r, rw (e, g, still) refl, v)
          | inl moving ↦ elim (Option-cases (find z.server r.servers)) [
            | inl a ↦ (r, rw (e, g, moving, a) refl, v)
            | inr (old, a) ↦ elim (Option-cases (find z.new_server r.servers)) [
              | inl b ↦ (r, rw (e, g, moving, a, b) refl, v)
              | inr (new, b) ↦
                  let (new', c, _) =
                    find-put_live (λ _. Unit {0}) z.server z.new_server (Server.del_zone id old)
                      r.servers (λ _. tt) (new, b, tt) in
                  (
                    _,
                    rw (e, g, moving, a, b, c) refl,
                    moved_IsSound r v id p z e g new' (rw a c) moving,
                  )
            ]
          ]
        ]
  ]
