-- ===== src/Routing/ZoneKeeps.antt =====
-- The operations of the router on its zones keep its pointers sound, and follow none to a free
-- cell. A user is moved only out of a zone that exists.
use pxc_prop_strikes_back.Base.{
  ◌+◌, ◌≡◌, ◌∙◌, refl, inl, inr, ◌⊎◌, none, some, arith, ℤ, find, put, find-put_self, find-put_ne,
  find-put-some, find-erase-some, Option-cases, int_key, nat_key,
}
use pxc_prop_strikes_back.Routing.Event.{Ref}
use pxc_prop_strikes_back.Routing.User
use pxc_prop_strikes_back.Routing.User.{User}
use pxc_prop_strikes_back.Routing.Zone
use pxc_prop_strikes_back.Routing.Zone.{Zone}
use pxc_prop_strikes_back.Routing.Router.{
  Router, add_zone, start_zone_to_server_transfer, set_user_to_zone,
}
use pxc_prop_strikes_back.Routing.Sound.{IsSound, put_user-IsSound, put_zone-IsSound}
use pxc_prop_strikes_back.Routing.Keeps.{Kept}

-- `Zone::addUser` changes nothing but the users, and adds at most the one that it is given.
module _ (i : ℤ) (p : Ref) (z : Zone) where
  id-add_user : (Zone.add_user i p z).id ≡ z.id
  unfolding Zone.add_user
  id-add_user = ground arith

  server-add_user : (Zone.add_user i p z).server ≡ z.server
  unfolding Zone.add_user
  server-add_user = ground arith

  users-add_user :
      (j : ℤ) (q : Ref)
      → find j (Zone.add_user i p z).users ≡ some q
      → ((i ≡ j) × (p ≡ q)) ⊎ (find j z.users ≡ some q)
  unfolding Zone.add_user
  users-add_user j q e = elim (Option-cases (find i z.users)) [
    | inl new' ↦ elim (find-put-some i j p z.users {w = q} (ground arith)) [
      | inl s ↦ inl s
      | inr s ↦ inr s.1
    ]
    | inr (w, old) ↦ inr (ground arith)
  ]

module _ (r : Router) (v : IsSound r) where
  pub add_zone-IsSound : (id : ℤ) → IsSound (add_zone id r)
  unfolding add_zone
  add_zone-IsSound id = elim (Option-cases (find id r.zones)) [
    | inl e ↦ rw e (more e)
    | inr (p, e) ↦ rw e v
  ]
    where
      more :
          find id r.zones ≡ none
          → IsSound (record r {
            zones = put id r.next_ref r.zones;
            zone_heap = put r.next_ref (Zone.new id) r.zone_heap;
            next_ref = r.next_ref + 1;
          })
      more e = record {
        user_live = v.user_live;
        zone_live = λ i p f. elim (find-put-some id i r.next_ref r.zones f) [
          | inl (s, t) ↦
              (Zone.new id, rw (← t) (find-put_self r.next_ref (Zone.new id) r.zone_heap), s)
          | inr (_, old) ↦
              let live = v.zone_live i p old in
              (
                live.0,
                find-put_ne r.next_ref p _ r.zone_heap
                      (λ s. absurd (omega (arith, v.zone_old p live.0 live.1)))
                    ∙ live.1,
                live.2,
              )
        ];
        zone_user = λ p z j q f g. elim (find-put-some r.next_ref p _ r.zone_heap f) [
          | inl (_, s) ↦ absurd (unfold find in ground arith)
          | inr (_, old) ↦ v.zone_user p z j q old g
        ];
        server_zone = λ i s j p f g.
            let (known, own) = v.server_zone i s j p f g in
            (
              find-put_ne id j r.next_ref r.zones (λ t. ground arith) ∙ known,
              λ z h. elim (find-put-some r.next_ref p _ r.zone_heap h) [
                | inl (t, _) ↦
                    let live = v.zone_live j p known in
                    absurd (omega (arith, v.zone_old p live.0 live.1))
                | inr (_, old) ↦ own z old
              ],
            );
        user_old = λ p u f. omega (arith, v.user_old p u f);
        zone_old = λ p z f. elim (find-put-some r.next_ref p _ r.zone_heap f) [
          | inl (s, _) ↦ omega arith
          | inr (_, old) ↦ omega (arith, v.zone_old p z old)
        ];
      }

  pub start_zone_to_server_transfer-IsSound :
      (id new_server : ℤ) → Kept (start_zone_to_server_transfer id new_server r)
  unfolding start_zone_to_server_transfer
  start_zone_to_server_transfer-IsSound id new_server = elim (Option-cases (find id r.zones)) [
    | inl e ↦ (r, rw e refl, v)
    | inr (p, e) ↦ elim (Option-cases (find new_server r.servers)) [
      | inl f ↦ (r, rw (e, f) refl, v)
      | inr (s, f) ↦
          let (z, g, h) = v.zone_live id p e in
          (
            _,
            rw (e, f, g) refl,
            put_zone-IsSound r v p z (Zone.start_transfer new_server z) g refl
                (λ j q. v.zone_user p z j q g) (λ i s' j a b. (v.server_zone i s' j p a b).1 z g),
          )
    ]
  ]

  -- A user is in no zone, or in one that exists.
  abbrev pub HasZone : ℤ → Type 0
  HasZone id_user =
      (p : Ref) (u : User)
      → find id_user r.users ≡ some p
      → find p r.user_heap ≡ some u
      → (po : Ref) × (find u.zone r.zones ≡ some po)

  -- The user enters its new zone.
  entered-IsSound :
      (id_user : ℤ) (pu pn : Ref) (u : User) (zn : Zone)
      → find id_user r.users ≡ some pu
      → u.id ≡ id_user
      → find pn r.zone_heap ≡ some zn
      → IsSound (record r { zone_heap = put pn (Zone.add_user u.id pu zn) r.zone_heap })
  entered-IsSound id_user pu pn u zn e same g =
      put_zone-IsSound r v pn zn _ g (id-add_user u.id pu zn)
        (λ j q a. elim (users-add_user u.id pu zn j q a) [
          | inl (s, t) ↦ rw (← t, ← s, same) e
          | inr old ↦ v.zone_user pn zn j q g old
        ])
        (λ i s j a b. server-add_user u.id pu zn ∙ (v.server_zone i s j pn a b).1 zn g)

  pub set_user_to_zone-IsSound :
      (id_user id_zone : ℤ) → HasZone id_user → Kept (set_user_to_zone id_user id_zone r)
  unfolding set_user_to_zone
  set_user_to_zone-IsSound id_user id_zone has = elim (Option-cases (find id_user r.users)) [
    | inl e ↦ (r, rw e refl, v)
    | inr (pu, e) ↦ elim (Option-cases (find id_zone r.zones)) [
      | inl f ↦ (r, rw (e, f) refl, v)
      | inr (pn, f) ↦
          let (u, g, same) = v.user_live id_user pu e in
          let (zn, h, _) = v.zone_live id_zone pn f in
          let (po, k) = has pu u e g in
          let r1 : Router = record r {
            zone_heap = put pn (Zone.add_user u.id pu zn) r.zone_heap;
          } in
          let v1 : IsSound r1 = entered-IsSound id_user pu pn u zn e same h in
          let (zo, l, _) = v1.zone_live u.zone po k in
          let r2 : Router = record r1 {
            zone_heap = put po (Zone.del_user id_user zo) r1.zone_heap;
          } in
          let v2 : IsSound r2 =
            put_zone-IsSound r1 v1 po zo (Zone.del_user id_user zo) l refl
              (λ j q a. v1.zone_user po zo j q l (find-erase-some id_user j zo.users a).1)
              (λ i s j a b. (v1.server_zone i s j po a b).1 zo l) in
          (
            record r2 { user_heap = put pu (User.set_zone id_zone u) r.user_heap },
            rw (e, f, g, h, k, l) refl,
            put_user-IsSound r2 v2 pu u _ g refl,
          )
    ]
  ]
