-- ===== src/Routing/UnplacedZones.antt =====
-- Zone transfers make no server with the id -1 (servrouter/src/Router.cpp).
use pxc_prop_strikes_back.Base.{
  ◌≡◌, inl, inr, ℤ, minus_one, none, some, Bool-cases, Option-cases, arith, Map, find, put, int_key,
  nat_key,
}
use pxc_prop_strikes_back.Routing.Event.{Ref}
use pxc_prop_strikes_back.Routing.Zone
use pxc_prop_strikes_back.Routing.Zone.{Zone}
use pxc_prop_strikes_back.Routing.Server
use pxc_prop_strikes_back.Routing.Server.{Server}
use pxc_prop_strikes_back.Routing.Router
use pxc_prop_strikes_back.Routing.Router.{Router}
use pxc_prop_strikes_back.Routing.Unplaced.{IsUnplaced, absent-put}

module _ (r : Router) (h : IsUnplaced r) where
  pub start_transfer-IsUnplaced :
      (i server : ℤ) (t : Router)
      → Router.start_zone_to_server_transfer i server r ≡ some t
      → IsUnplaced t
  unfolding Router.start_zone_to_server_transfer
  start_transfer-IsUnplaced i server t e = elim (Option-cases (find i r.zones)) [
    | inl a ↦ let same : r ≡ t = ground arith in rw (← same) h
    | inr (p, a) ↦ elim (Option-cases (find server r.servers)) [
      | inl b ↦ let same : r ≡ t = ground arith in rw (← same) h
      | inr (s, b) ↦ elim (Option-cases (find p r.zone_heap)) [
        | inl d ↦ absurd (ground arith)
        | inr (z, d) ↦
            let moving : Router = record r {
              zone_heap = put p (Zone.start_transfer server z) r.zone_heap;
            } in
            let same : moving ≡ t = ground arith in
            rw (← same)
              (record { no_server = h.no_server; no_zone = h.no_zone; nowhere = h.nowhere })
      ]
    ]
  ]

  move_zone-IsUnplaced :
      (i : ℤ) (p : Ref) (z : Zone) (old : Server) (t : Router)
      → find z.server r.servers ≡ some old
      → Router.move_zone i p z old r ≡ some t
      → IsUnplaced t
  move_zone-IsUnplaced i p z old t a e =
      let servers : Map ℤ Server = put z.server (Server.del_zone i old) r.servers in
      let no_server : find minus_one servers ≡ none =
        absent-put z.server (Server.del_zone i old) old r.servers h.no_server a in
      elim (Option-cases (find z.new_server servers)) [
        | inl b ↦ absurd (ground arith)
        | inr (s, b) ↦
            let moved : Router = record r {
              servers = put z.new_server (Server.add_zone z.id p s) servers;
              zone_heap = put p (Zone.end_transfer z) r.zone_heap;
            } in
            let same : moved ≡ t = ground arith in
            rw (← same) (record {
              no_server = absent-put z.new_server (Server.add_zone z.id p s) s servers no_server b;
              no_zone = h.no_zone;
              nowhere = h.nowhere;
            })
      ]

  pub end_transfer-IsUnplaced :
      (i : ℤ) (t : Router) → Router.end_zone_to_server_transfer i r ≡ some t → IsUnplaced t
  unfolding Router.end_zone_to_server_transfer
  end_transfer-IsUnplaced i t e = elim (Option-cases (find i r.zones)) [
    | inl a ↦ let same : r ≡ t = ground arith in rw (← same) h
    | inr (p, a) ↦ elim (Option-cases (find p r.zone_heap)) [
      | inl b ↦ absurd (ground arith)
      | inr (z, b) ↦ elim (Bool-cases z.in_transfer) [
        | inr off ↦ let same : r ≡ t = ground arith in rw (← same) h
        | inl on ↦ elim (Option-cases (find z.server r.servers)) [
          | inl c ↦ let same : r ≡ t = ground arith in rw (← same) h
          | inr (old, c) ↦ elim (Option-cases (find z.new_server r.servers)) [
            | inl d ↦ let same : r ≡ t = ground arith in rw (← same) h
            | inr (s, d) ↦
                let moved : Router.move_zone i p z old r ≡ some t = ground arith in
                move_zone-IsUnplaced i p z old t c moved
          ]
        ]
      ]
    ]
  ]
