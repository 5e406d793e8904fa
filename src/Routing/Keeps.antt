-- ===== src/Routing/Keeps.antt =====
-- The operations of the router keep its pointers sound, and follow none to a free cell; `delUser` is
-- not among them.
use pxc_prop_strikes_back.Base.{
  ◌+◌, ◌≡◌, ◌∙◌, refl, inl, inr, Option, none, some, arith, ℤ, Bool, false, find, put, erase,
  find-put_self, find-put_ne, find-put-some, find-erase-some, Option-cases, Bool-cases, int_key,
  nat_key,
}
use pxc_prop_strikes_back.Routing.Event.{Conn}
use pxc_prop_strikes_back.Routing.User
use pxc_prop_strikes_back.Routing.User.{User}
use pxc_prop_strikes_back.Routing.Server
use pxc_prop_strikes_back.Routing.Server.{Server}
use pxc_prop_strikes_back.Routing.Router.{
  Router, emit, add_server, connect_server, del_server, add_user, validate_user, connect_user,
}
use pxc_prop_strikes_back.Routing.Sound.{
  IsSound, emit-IsSound, put_user-IsSound, put_server-IsSound,
}

-- The operation returns, and the pointers are sound after it.
abbrev pub Kept : Option Router → Type 0
Kept o = (r : Router) × (o ≡ some r) × IsSound r

module _ (r : Router) (v : IsSound r) where
  pub add_server-IsSound : (id : ℤ) → IsSound (add_server id r)
  unfolding add_server find
  add_server-IsSound id = elim (Option-cases (find id r.servers)) [
    | inl e ↦ rw e (put_server-IsSound r v id (Server.new id) (λ j p f. absurd (ground arith)))
    | inr (s, e) ↦ rw e v
  ]

  pub connect_server-IsSound : (id : ℤ) (c : Conn) → IsSound (connect_server id c r)
  unfolding connect_server Server.set_connection
  connect_server-IsSound id c = elim (Option-cases (find id r.servers)) [
    | inl e ↦ rw e v
    | inr (s, e) ↦ rw e (
        emit-IsSound _
          (put_server-IsSound r v id (record s { connection = some c })
            (λ j p f. v.server_zone id s j p e f))
          _)
  ]

  pub del_server-IsSound : (id : ℤ) → IsSound (del_server id r)
  unfolding del_server
  del_server-IsSound id = elim (Option-cases (find id r.servers)) [
    | inl e ↦ rw e v
    | inr (s, e) ↦ rw e (emit-IsSound _ less _)
  ]
    where
      less : IsSound (record r { servers = erase id r.servers })
      less = record {
        user_live = v.user_live;
        zone_live = v.zone_live;
        zone_user = v.zone_user;
        server_zone = λ i t j p f g. v.server_zone i t j p (find-erase-some id i r.servers f).1 g;
        user_old = v.user_old;
        zone_old = v.zone_old;
      }

  pub add_user-IsSound : (id token : ℤ) → Kept (add_user id token r)
  unfolding add_user
  add_user-IsSound id token = elim (Option-cases (find id r.users)) [
    | inl e ↦ (_, rw e refl, more e)
    | inr (p, e) ↦
        let (u, f, g) = v.user_live id p e in
        (_, rw (e, f) refl, put_user-IsSound r v p u (record u { token = token }) f refl)
  ]
    where
      more :
          find id r.users ≡ none
          → IsSound (record r {
            users = put id r.next_ref r.users;
            user_heap = put r.next_ref (User.new id token) r.user_heap;
            next_ref = r.next_ref + 1;
          })
      more e = record {
        user_live = λ i p f. elim (find-put-some id i r.next_ref r.users f) [
          | inl (s, t) ↦ (
            User.new id token,
            rw (← t) (find-put_self r.next_ref (User.new id token) r.user_heap),
            s,
          )
          | inr (_, old) ↦
              let live = v.user_live i p old in
              (
                live.0,
                find-put_ne r.next_ref p _ r.user_heap
                      (λ s. absurd (omega (arith, v.user_old p live.0 live.1)))
                    ∙ live.1,
                live.2,
              )
        ];
        zone_live = v.zone_live;
        zone_user = λ p z j q f g.
            let old = v.zone_user p z j q f g in
            find-put_ne id j r.next_ref r.users (λ s. ground (arith)) ∙ old;
        server_zone = v.server_zone;
        user_old = λ p u f. elim (find-put-some r.next_ref p _ r.user_heap f) [
          | inl (s, _) ↦ omega arith
          | inr (_, old) ↦ omega (arith, v.user_old p u old)
        ];
        zone_old = λ p z f. omega (arith, v.zone_old p z f);
      }

  pub validate_user-IsSound :
      (id token : ℤ)
      → (r' : Router) × (b : Bool) × (validate_user id token r ≡ some (r', b)) × IsSound r'
  unfolding validate_user
  validate_user-IsSound id token = elim (Option-cases (find id r.users)) [
    | inl e ↦ (r, false, rw e refl, v)
    | inr (p, e) ↦
        let (u, f, g) = v.user_live id p e in
        (
          record r { user_heap = put p (User.validate token u).0 r.user_heap },
          (User.validate token u).1,
          rw (e, f) refl,
          put_user-IsSound r v p u _ f refl,
        )
  ]

  pub connect_user-IsSound : (id token : ℤ) (c : Conn) → Kept (connect_user id token c r)
  unfolding connect_user
  connect_user-IsSound id token c = elim (Option-cases (find id r.users)) [
    | inl e ↦ (r, rw e refl, v)
    | inr (p, e) ↦
        let (u, f, g) = v.user_live id p e in
        let u' = (User.validate token u).0 in
        let (u'', es) = User.set_connection c u' in
        let good = put_user-IsSound r v p u u'' f refl in
        let bad = put_user-IsSound r v p u u' f refl in
        elim (Bool-cases (User.validate token u).1) [
          | inl valid ↦ (
            emit es (record r { user_heap = put p u'' r.user_heap }),
            rw (e, f, valid) refl,
            emit-IsSound _ good _,
          )
          | inr invalid ↦
              (record r { user_heap = put p u' r.user_heap }, rw (e, f, invalid) refl, bad)
        ]
  ]
