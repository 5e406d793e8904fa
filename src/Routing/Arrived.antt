-- ===== src/Routing/Arrived.antt =====
-- What holds in every state that the router reaches by what it receives
-- (servrouter/src/InstControl.cpp, Router.cpp).
use mathlib.Core.Option.{some_inj}
use pxc_prop_strikes_back.Base.{
  ◌≡◌, refl, inl, inr, ℤ, minus_one, eq_int, if◌then◌else◌, List, [], ◌∷◌, none, some, Bool-cases,
  Option-cases, arith, find, int_key, nat_key,
}
use pxc_prop_strikes_back.Routing.Event
use pxc_prop_strikes_back.Routing.Event.{Conn, Ref, Message, Event, sends, connects, connect_client}
use pxc_prop_strikes_back.Routing.User.{User}
use pxc_prop_strikes_back.Routing.Router
use pxc_prop_strikes_back.Routing.Router.{Router}
use pxc_prop_strikes_back.Routing.Instructions.{
  get_server_ip_received, set_zone_to_server, add_user_received, del_user_received,
  connect_user_received, client_callback,
}
use pxc_prop_strikes_back.Routing.Received.{
  Received, get_server_ip, zone_to_server, add_user, del_user, connect_user, of_client, handle,
  handle_all,
}
use pxc_prop_strikes_back.Routing.UnplacedZones.{start_transfer-IsUnplaced, end_transfer-IsUnplaced}
use pxc_prop_strikes_back.Routing.Unplaced.{
  IsUnplaced, set_user_to_zone_faults, set_user_to_zone_same, add_user-IsUnplaced,
  connect_user-IsUnplaced, del_user-IsUnplaced, connect_server-IsUnplaced, add_server-IsUnplaced,
  add_zone-IsUnplaced, added, emit-IsUnplaced,
}

module _ (r : Router) (h : IsUnplaced r) where
  named-IsUnplaced :
      (zone server : ℤ) (c : Conn) (t : Router)
      → set_zone_to_server zone server c r ≡ some t
      → IsUnplaced t
  unfolding set_zone_to_server
  named-IsUnplaced zone server c t e =
      let es : List Event = sends c (Event.get_server_ip server) ∷ [] in
      let r1 : Router =
        if eq_int server minus_one then r else Router.emit es (Router.add_server server r) in
      let h1 : IsUnplaced r1 = elim (Bool-cases (eq_int server minus_one)) [
        | inl a ↦ rw a h
        | inr a ↦ rw a (emit-IsUnplaced es (add_server-IsUnplaced r h server a))
      ] in
      let r2 : Router = if eq_int zone minus_one then r1 else Router.add_zone zone r1 in
      let h2 : IsUnplaced r2 = elim (Bool-cases (eq_int zone minus_one)) [
        | inl a ↦ rw a h1
        | inr a ↦ rw a (add_zone-IsUnplaced r1 h1 zone a)
      ] in
      elim (Option-cases (Router.start_zone_to_server_transfer zone server r2)) [
        | inl f ↦ absurd (cc (rw f at e))
        | inr (r3, f) ↦
            end_transfer-IsUnplaced r3 (start_transfer-IsUnplaced r2 h2 zone server r3 f) zone t
              (rw f at e)
      ]

  handle-IsUnplaced : (x : Received) (t : Router) → handle x r ≡ some t → IsUnplaced t
  unfolding handle get_server_ip_received add_user_received del_user_received connect_user_received
      client_callback Router.send_to_server_users
  handle-IsUnplaced (get_server_ip i c d) t e = rw (← some_inj.0 e) (
      connect_server-IsUnplaced (Router.emit (connects c ∷ []) r)
        (emit-IsUnplaced (connects c ∷ []) h) i d)
  handle-IsUnplaced (zone_to_server zone server c) t e = named-IsUnplaced zone server c t e
  handle-IsUnplaced (add_user i token zone) t e = elim (Option-cases (Router.add_user i token r)) [
    | inl f ↦ absurd (ground arith)
    | inr (u, f) ↦
        let k = add_user-IsUnplaced r h i token u f in
        let moved : Router.set_user_to_zone i zone u ≡ some t = ground arith in
        rw (← set_user_to_zone_same u k i zone t moved) k
  ]
  handle-IsUnplaced (del_user i) t e = del_user-IsUnplaced r h i t e
  handle-IsUnplaced (connect_user i token c) t e =
      elim (Option-cases (Router.connect_user i token c r)) [
        | inl f ↦ absurd (ground arith)
        | inr (u, f) ↦
            let same : Router.emit (sends c (connect_client i token) ∷ []) u ≡ t = ground arith in
            rw (← same) (emit-IsUnplaced _ (connect_user-IsUnplaced r h i token c u f))
      ]
  handle-IsUnplaced (of_client m) t e =
      let same : r ≡ t = ground (arith, h.no_server) in rw (← same) h

handle_all-IsUnplaced :
    (xs : List Received) (r t : Router) → IsUnplaced r → handle_all xs r ≡ some t → IsUnplaced t
unfolding handle_all
handle_all-IsUnplaced [] r t h e = rw (← some_inj.0 e) h
handle_all-IsUnplaced (x ∷ xs) r t h e = elim (Option-cases (handle x r)) [
  | inl f ↦ absurd (ground arith)
  | inr (u, f) ↦ handle_all-IsUnplaced xs u t (handle-IsUnplaced r h x u f) (ground arith)
]

new-IsUnplaced : IsUnplaced Router.new
unfolding Router.new find
new-IsUnplaced = record {
  no_server = refl;
  no_zone = refl;
  nowhere = λ p u e. absurd (ground arith);
}

-- In every state that the router reaches from its start by what it receives, whatever that is and
-- in any order: a datagram of a client is dropped, so that it reaches no user and no server.
pub client_callback_lem :
    (xs : List Received) (r : Router) (m : Message)
    → handle_all xs Router.new ≡ some r
    → client_callback m r ≡ some r
unfolding client_callback Router.send_to_server_users
client_callback_lem xs r m e =
    rw ((handle_all-IsUnplaced xs Router.new r new-IsUnplaced e).no_server) refl

-- In every state that the router reaches from its start by what it receives, whatever that is and
-- in any order: each user is in no zone, and a user of which the router is told with a zone that it
-- knows makes it fault, whether it knows the user or not.
pub add_user_received_lem :
    (xs : List Received) (r : Router)
    → handle_all xs Router.new ≡ some r
    → ((p : Ref) (u : User) → find p r.user_heap ≡ some u → u.zone ≡ minus_one)
      × ((i token zone : ℤ) (pz : Ref)
          → find zone r.zones ≡ some pz
          → add_user_received i token zone r ≡ none)
unfolding add_user_received
add_user_received_lem xs r e =
    let h = handle_all-IsUnplaced xs Router.new r new-IsUnplaced e in
    (
      h.nowhere,
      λ i token zone pz a. elim (Option-cases (Router.add_user i token r)) [
        | inl f ↦ rw f refl
        | inr (u, f) ↦
            let k = add_user-IsUnplaced r h i token u f in
            let (pu, known, zones) = added r i token u f in
            rw f (set_user_to_zone_faults u k i zone pu pz known (rw zones a))
      ],
    )
