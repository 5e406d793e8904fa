-- ===== src/Routing/Faults.antt =====
-- What the router does that its comments and names do not promise.
use pxc_prop_strikes_back.Base.{
  ◌≡◌, ◌≢◌, refl, true, false, [], ◌∷◌, ◌++◌, none, some, arith, ℤ, pos, minus_one, find, put,
  erase, int_key, nat_key, find-put_self, find-put_ne, find-erase, eq_int_iff, ==_iff, eq_int, ◌+◌,
  Option-cases, inl, inr, Map,
}
use pxc_prop_strikes_back.Routing.Event.{
  Conn, Ref, Message, sends, deletes, get_server_ip, connect_client,
}
use pxc_prop_strikes_back.Routing.User
use pxc_prop_strikes_back.Routing.User.{User}
use pxc_prop_strikes_back.Routing.Zone
use pxc_prop_strikes_back.Routing.Zone.{Zone}
use pxc_prop_strikes_back.Routing.Server
use pxc_prop_strikes_back.Routing.Server.{Server}
use pxc_prop_strikes_back.Routing.Router
use pxc_prop_strikes_back.Routing.Router.{Router}
use pxc_prop_strikes_back.Routing.Instructions.{set_zone_to_server, connect_user_received}
use pxc_prop_strikes_back.Routing.Sound.{IsSound}

-- A user's token does not guard it: every token but 0 is accepted, whatever the user's own is, and
-- becomes the user's.
pub validate_user_any :
    (r : Router) (i token : ℤ) (p : Ref) (u : User)
    → token ≢ pos 0
    → find i r.users ≡ some p
    → find p r.user_heap ≡ some u
    → (t : Router) × (Router.validate_user i token r ≡ some (t, true))
      × (find p t.user_heap ≡ some (record u { token = token }))
unfolding Router.validate_user User.validate
validate_user_any r i token p u ne a b =
    let other : eq_int token (pos 0) ≡ false = ground (arith, eq_int_iff token (pos 0)) in
    let u' : User = record u { token = token } in
    (
      record r { user_heap = put p u' r.user_heap },
      rw (a, b, other) refl,
      find-put_self p u' r.user_heap,
    )

del_user_freed :
    (r t : Router) (i : ℤ) (p : Ref)
    → find i r.users ≡ some p
    → Router.del_user i r ≡ some t
    → (find i t.users ≡ some p) × (find p t.user_heap ≡ none)
unfolding Router.del_user
del_user_freed r t i p a e =
    let free : find p (erase p r.user_heap) ≡ none =
      ground (arith, find-erase p p r.user_heap, ==_iff p p) in
    elim (Option-cases (find p r.user_heap)) [
      | inl b ↦ absurd (ground arith)
      | inr (u, b) ↦ elim (Option-cases (find u.zone r.zones)) [
        | inl c ↦ ground arith
        | inr (pz, c) ↦ elim (Option-cases (find pz r.zone_heap)) [
          | inl d ↦ absurd (ground arith)
          | inr (z, d) ↦ ground arith
        ]
      ]
    ]

-- After a user is deleted, its entry is followed by the next validation, update, connection or
-- message of it.
pub del_user_dangling :
    (r t : Router) (i token : ℤ) (c : Conn) (m : Message) (p : Ref)
    → find i r.users ≡ some p
    → Router.del_user i r ≡ some t
    → (Router.validate_user i token t ≡ none)
      × (Router.add_user i token t ≡ none)
      × (Router.connect_user i token c t ≡ none)
      × (Router.send_to_user i m t ≡ none)
      × (Router.del_user i t ≡ none)
unfolding Router.del_user Router.validate_user Router.add_user Router.connect_user
    Router.send_to_user
del_user_dangling r t i token c m p a e =
    let (there, free) = del_user_freed r t i p a e in
    (
      rw (there, free) refl,
      rw (there, free) refl,
      rw (there, free) refl,
      rw (there, free) refl,
      rw (there, free) refl,
    )

-- An instruction that sets a zone on a server, neither of them known: afterwards both exist, but
-- the zone still has no server and is in transfer, and the server does not have it.
pub set_zone_to_server_fresh :
    (r : Router) (zone server : ℤ) (c : Conn)
    → zone ≢ minus_one
    → server ≢ minus_one
    → find zone r.zones ≡ none
    → find server r.servers ≡ none
    → find minus_one r.servers ≡ none
    → (t : Router) × (p : Ref) × (set_zone_to_server zone server c r ≡ some t)
      × (find zone t.zones ≡ some p)
      × (find p t.zone_heap
          ≡ some (record (Zone.new zone) { new_server = server; in_transfer = true }))
      × (find server t.servers ≡ some (Server.new server))
unfolding set_zone_to_server Router.add_server Router.add_zone Router.start_zone_to_server_transfer
    Router.end_zone_to_server_transfer Zone.new Zone.start_transfer Server.new
set_zone_to_server_fresh r zone server c nz ns a b d =
    let z : Zone = Zone.new zone in
    let z' : Zone = record z { new_server = server; in_transfer = true } in
    let s : Server = Server.new server in
    let heap : Map Ref Zone = put r.next_ref z r.zone_heap in
    let is_server : eq_int server minus_one ≡ false = ground (arith, eq_int_iff server minus_one) in
    let is_zone : eq_int zone minus_one ≡ false = ground (arith, eq_int_iff zone minus_one) in
    (
      record r {
        servers = put server s r.servers;
        zones = put zone r.next_ref r.zones;
        zone_heap = put r.next_ref z' heap;
        next_ref = r.next_ref + 1;
        events = r.events ++ sends c (get_server_ip server) ∷ [];
      },
      r.next_ref,
      rw
          (
            is_server,
            is_zone,
            b,
            a,
            find-put_self zone r.next_ref r.zones,
            find-put_self server s r.servers,
            find-put_self r.next_ref z r.zone_heap,
            find-put_self zone r.next_ref r.zones,
            find-put_self r.next_ref z' heap,
            find-put_ne server minus_one s r.servers ns,
            d,
          )
          refl,
      find-put_self zone r.next_ref r.zones,
      find-put_self r.next_ref z' heap,
      find-put_self server s r.servers,
    )

-- A known user connects over a link, in a router with only live pointers and with a token other than
-- 0, and later over the same link again: the router deletes the connection, keeps it as the user's,
-- and sends its answer through it.
pub connect_user_received_twice :
    (r : Router) (i token : ℤ) (c : Conn) (p : Ref)
    → IsSound r
    → token ≢ pos 0
    → find i r.users ≡ some p
    → (t : Router) × (v : Router) × (u : User) × (connect_user_received i token c r ≡ some t)
      × (connect_user_received i token c t ≡ some v)
      × (v.events ≡ (t.events ++ deletes c ∷ []) ++ sends c (connect_client i token) ∷ [])
      × (find p v.user_heap ≡ some u)
      × (u.connection ≡ some c)
unfolding connect_user_received Router.connect_user User.validate User.set_connection
connect_user_received_twice r i token c p h ne a =
    let (u, b, _) = h.user_live i p a in
    let u1 : User = record u { token = token; connection = some c } in
    let other : eq_int token (pos 0) ≡ false = ground (arith, eq_int_iff token (pos 0)) in
    let es = (User.set_connection c (record u { token = token })).1 in
    let answer = sends c (connect_client i token) ∷ [] in
    let heap = put p u1 r.user_heap in
    let t : Router = record r { user_heap = heap; events = (r.events ++ es) ++ answer } in
    (
      t,
      record t { user_heap = put p u1 heap; events = (t.events ++ deletes c ∷ []) ++ answer },
      u1,
      rw (a, b, other) refl,
      rw (a, find-put_self p u1 r.user_heap, other) refl,
      refl,
      find-put_self p u1 heap,
      refl,
    )
