-- ===== src/Routing/Unplaced.antt =====
-- What a running router never has: a server or a zone with the id -1, and a user in a zone
-- (servrouter/src/InstControl.cpp, Router.cpp).
use pxc_prop_strikes_back.Base.{
  ◌≡◌, ◌≢◌, ◌∙◌, sym, ap, refl, inl, inr, ℤ, pos, minus_one, ◌+◌, eq_int, eq_int_iff, false, List,
  none, some, Bool-cases, Option-cases, arith, Map, find, put, erase, find-put-some, find-put_self,
  find-put_ne, find-erase-some, int_key, nat_key,
}
use pxc_prop_strikes_back.Routing.Event.{Conn, Ref, Event}
use pxc_prop_strikes_back.Routing.User
use pxc_prop_strikes_back.Routing.User.{User}
use pxc_prop_strikes_back.Routing.Router
use pxc_prop_strikes_back.Routing.Router.{Router}

pub record IsUnplaced (r : Router) : Type 0 where
  pub no_server : find minus_one r.servers ≡ none
  pub no_zone : find minus_one r.zones ≡ none
  pub nowhere : (p : Ref) (u : User) → find p r.user_heap ≡ some u → u.zone ≡ minus_one

-- Writing under a key that is there keeps another one away.
pub absent-put :
    {V : Type 0} (k : ℤ) (v w : V) (m : Map ℤ V)
    → find minus_one m ≡ none
    → find k m ≡ some w
    → find minus_one (put k v m) ≡ none
absent-put k v w m h at =
    let other : k ≢ minus_one = λ e. ground (arith, ap (λ i. find i m) e) in
    find-put_ne k minus_one v m other ∙ h

absent-put_ne :
    {V : Type 0} (k : ℤ) (v : V) (m : Map ℤ V)
    → find minus_one m ≡ none
    → eq_int k minus_one ≡ false
    → find minus_one (put k v m) ≡ none
absent-put_ne k v m h ne =
    find-put_ne k minus_one v m (λ e. ground (arith, eq_int_iff k minus_one)) ∙ h

module _ (r : Router) (h : IsUnplaced r) where
  -- A user that is known, and a zone that is known: the user's old zone is not.
  pub set_user_to_zone_faults :
      (i zone : ℤ) (pu pz : Ref)
      → find i r.users ≡ some pu
      → find zone r.zones ≡ some pz
      → Router.set_user_to_zone i zone r ≡ none
  unfolding Router.set_user_to_zone
  set_user_to_zone_faults i zone pu pz a b = elim (Option-cases (find pu r.user_heap)) [
    | inl c ↦ rw (a, b, c) refl
    | inr (u, c) ↦ elim (Option-cases (find pz r.zone_heap)) [
      | inl d ↦ rw (a, b, c, d) refl
      | inr (z, d) ↦ rw (a, b, c, d, h.nowhere pu u c, h.no_zone) refl
    ]
  ]

  pub set_user_to_zone_same :
      (i zone : ℤ) (t : Router) → Router.set_user_to_zone i zone r ≡ some t → r ≡ t
  unfolding Router.set_user_to_zone
  set_user_to_zone_same i zone t e = elim (Option-cases (find i r.users)) [
    | inl a ↦ ground arith
    | inr (pu, a) ↦ elim (Option-cases (find zone r.zones)) [
      | inl b ↦ ground arith
      | inr (pz, b) ↦ absurd (ground (arith, set_user_to_zone_faults i zone pu pz a b))
    ]
  ]

  nowhere-put :
      (q : Ref) (v : User)
      → v.zone ≡ minus_one
      → (p : Ref) (u : User) → find p (put q v r.user_heap) ≡ some u
      → u.zone ≡ minus_one
  nowhere-put q v at p u e = elim (find-put-some q p v r.user_heap e) [
    | inl (_, same) ↦ ap (λ w. w.zone) (sym same) ∙ at
    | inr (_, old) ↦ h.nowhere p u old
  ]

  -- What connecting a user leaves alone.
  connected :
      (i token : ℤ) (c : Conn) (q : Ref) (u : User) (t : Router)
      → find i r.users ≡ some q
      → find q r.user_heap ≡ some u
      → Router.connect_user i token c r ≡ some t
      → (v : User) × (v.zone ≡ u.zone)
        × (t.user_heap ≡ put q v r.user_heap)
        × (t.servers ≡ r.servers)
        × (t.zones ≡ r.zones)
  unfolding Router.connect_user User.validate User.set_connection
  connected i token c q u t a b e = elim (Bool-cases (eq_int token (pos 0))) [
    | inl zero_token ↦
        let v : User = record u { token = token } in
        let same : record r { user_heap = put q v r.user_heap } ≡ t = ground arith in
        (v, refl, rw (← same) refl, rw (← same) refl, rw (← same) refl)
    | inr other ↦
        let v : User = record u { token = token; connection = some c } in
        let es = (User.set_connection c (record u { token = token })).1 in
        let same : Router.emit es (record r { user_heap = put q v r.user_heap }) ≡ t =
          ground arith in
        (v, refl, rw (← same) refl, rw (← same) refl, rw (← same) refl)
  ]

  pub add_user-IsUnplaced :
      (i token : ℤ) (t : Router) → Router.add_user i token r ≡ some t → IsUnplaced t
  unfolding Router.add_user User.new User.set_token
  add_user-IsUnplaced i token t e = elim (Option-cases (find i r.users)) [
    | inl a ↦
        let made : Router = record r {
          users = put i r.next_ref r.users;
          user_heap = put r.next_ref (User.new i token) r.user_heap;
          next_ref = r.next_ref + 1;
        } in
        let same : made ≡ t = ground arith in
        rw (← same) (record {
          no_server = h.no_server;
          no_zone = h.no_zone;
          nowhere = nowhere-put r.next_ref (User.new i token) refl;
        })
    | inr (q, a) ↦ elim (Option-cases (find q r.user_heap)) [
      | inl b ↦ absurd (ground arith)
      | inr (u, b) ↦
          let told : Router = record r { user_heap = put q (User.set_token token u) r.user_heap } in
          let same : told ≡ t = ground arith in
          rw (← same) (record {
            no_server = h.no_server;
            no_zone = h.no_zone;
            nowhere = nowhere-put q (User.set_token token u) (h.nowhere q u b);
          })
    ]
  ]

  pub connect_user-IsUnplaced :
      (i token : ℤ) (c : Conn) (t : Router)
      → Router.connect_user i token c r ≡ some t
      → IsUnplaced t
  unfolding Router.connect_user User.validate User.set_connection
  connect_user-IsUnplaced i token c t e = elim (Option-cases (find i r.users)) [
    | inl a ↦ let same : r ≡ t = ground arith in rw (← same) h
    | inr (q, a) ↦ elim (Option-cases (find q r.user_heap)) [
      | inl b ↦ absurd (ground arith)
      | inr (u, b) ↦
          let (v, at, heap, servers, zones) = connected i token c q u t a b e in
          record {
            no_server = rw servers h.no_server;
            no_zone = rw zones h.no_zone;
            nowhere = rw heap (nowhere-put q v (at ∙ h.nowhere q u b));
          }
    ]
  ]

  pub del_user-IsUnplaced : (i : ℤ) (t : Router) → Router.del_user i r ≡ some t → IsUnplaced t
  unfolding Router.del_user
  del_user-IsUnplaced i t e = elim (Option-cases (find i r.users)) [
    | inl a ↦ let same : r ≡ t = ground arith in rw (← same) h
    | inr (p, a) ↦ elim (Option-cases (find p r.user_heap)) [
      | inl b ↦ absurd (ground arith)
      | inr (u, b) ↦
          let nowhere = h.nowhere p u b in
          let left : Router =
            Router.emit (User.destroy u) (record r { user_heap = erase p r.user_heap }) in
          let same : left ≡ t = ground (arith, nowhere, h.no_zone) in
          rw (← same) (record {
            no_server = h.no_server;
            no_zone = h.no_zone;
            nowhere = λ q v f. h.nowhere q v (find-erase-some p q r.user_heap f).1;
          })
    ]
  ]

  pub connect_server-IsUnplaced : (i : ℤ) (c : Conn) → IsUnplaced (Router.connect_server i c r)
  unfolding Router.connect_server
  connect_server-IsUnplaced i c = elim (Option-cases (find i r.servers)) [
    | inl a ↦ rw a h
    | inr (s, a) ↦ rw a (record {
      no_server = absent-put i _ s r.servers h.no_server a;
      no_zone = h.no_zone;
      nowhere = h.nowhere;
    })
  ]

  pub add_server-IsUnplaced :
      (i : ℤ) → eq_int i minus_one ≡ false → IsUnplaced (Router.add_server i r)
  unfolding Router.add_server
  add_server-IsUnplaced i ne = elim (Option-cases (find i r.servers)) [
    | inr (s, a) ↦ rw a h
    | inl a ↦ rw a (record {
      no_server = absent-put_ne i _ r.servers h.no_server ne;
      no_zone = h.no_zone;
      nowhere = h.nowhere;
    })
  ]

  pub add_zone-IsUnplaced : (i : ℤ) → eq_int i minus_one ≡ false → IsUnplaced (Router.add_zone i r)
  unfolding Router.add_zone
  add_zone-IsUnplaced i ne = elim (Option-cases (find i r.zones)) [
    | inr (s, a) ↦ rw a h
    | inl a ↦ rw a (record {
      no_server = h.no_server;
      no_zone = absent-put_ne i _ r.zones h.no_zone ne;
      nowhere = h.nowhere;
    })
  ]

-- A user that was added is known.
pub added :
    (r : Router) (i token : ℤ) (t : Router)
    → Router.add_user i token r ≡ some t
    → (p : Ref) × (find i t.users ≡ some p) × (t.zones ≡ r.zones)
unfolding Router.add_user
added r i token t e = elim (Option-cases (find i r.users)) [
  | inl a ↦
      let made : Router = record r {
        users = put i r.next_ref r.users;
        user_heap = put r.next_ref (User.new i token) r.user_heap;
        next_ref = r.next_ref + 1;
      } in
      let same : made ≡ t = ground arith in
      (r.next_ref, rw (← same) (find-put_self i r.next_ref r.users), rw (← same) refl)
  | inr (q, a) ↦ elim (Option-cases (find q r.user_heap)) [
    | inl b ↦ absurd (ground arith)
    | inr (u, b) ↦
        let told : Router = record r { user_heap = put q (User.set_token token u) r.user_heap } in
        let same : told ≡ t = ground arith in (q, rw (← same) a, rw (← same) refl)
  ]
]

pub emit-IsUnplaced : {r : Router} (es : List Event) → IsUnplaced r → IsUnplaced (Router.emit es r)
emit-IsUnplaced es h = record { no_server = h.no_server; no_zone = h.no_zone; nowhere = h.nowhere }
