-- ===== src/Routing/Sound.antt =====
-- The pointers of the router: which are followed without a fault, and what keeps them so.
use pxc_prop_strikes_back.Base.{
  ◌<◌, ◌≡◌, ◌∙◌, inl, inr, List, some, arith, ℤ, find, put, find-put-some, find-put_live, int_key,
  nat_key,
}
use pxc_prop_strikes_back.Routing.Event.{Ref, Event}
use pxc_prop_strikes_back.Routing.User.{User}
use pxc_prop_strikes_back.Routing.Zone.{Zone}
use pxc_prop_strikes_back.Routing.Server.{Server}
use pxc_prop_strikes_back.Routing.Router.{Router, new}

-- Every pointer that the router holds leads to a live object of its id. A zone's users are the
-- router's, and a server's zones are the router's that name this server.
pub record IsSound (r : Router) : Type 0 where
  pub user_live :
      (i : ℤ) (p : Ref)
      → find i r.users ≡ some p
      → (u : User) × (find p r.user_heap ≡ some u) × (u.id ≡ i)
  pub zone_live :
      (i : ℤ) (p : Ref)
      → find i r.zones ≡ some p
      → (z : Zone) × (find p r.zone_heap ≡ some z) × (z.id ≡ i)
  pub zone_user :
      (p : Ref) (z : Zone) (j : ℤ) (q : Ref)
      → find p r.zone_heap ≡ some z
      → find j z.users ≡ some q
      → find j r.users ≡ some q
  pub server_zone :
      (i : ℤ) (s : Server) (j : ℤ) (p : Ref)
      → find i r.servers ≡ some s
      → find j s.zones ≡ some p
      → (find j r.zones ≡ some p) × ((z : Zone) → find p r.zone_heap ≡ some z → z.server ≡ i)
  pub user_old : (p : Ref) (u : User) → find p r.user_heap ≡ some u → p < r.next_ref
  pub zone_old : (p : Ref) (z : Zone) → find p r.zone_heap ≡ some z → p < r.next_ref

pub new-IsSound : IsSound new
unfolding new find
new-IsSound = record {
  user_live = λ i p e. absurd (ground arith);
  zone_live = λ i p e. absurd (ground arith);
  zone_user = λ p z j q e f. absurd (ground arith);
  server_zone = λ i s j p e f. absurd (ground arith);
  user_old = λ p u e. absurd (ground arith);
  zone_old = λ p z e. absurd (ground arith);
}

module _ (r : Router) (v : IsSound r) where
  -- What is sent does not matter.
  pub emit-IsSound : (es : List Event) → IsSound (record r { events = es })
  emit-IsSound es = record {
    user_live = v.user_live;
    zone_live = v.zone_live;
    zone_user = v.zone_user;
    server_zone = v.server_zone;
    user_old = v.user_old;
    zone_old = v.zone_old;
  }

  -- A user object written in place.
  pub put_user-IsSound :
      (p : Ref) (u u' : User)
      → find p r.user_heap ≡ some u
      → u'.id ≡ u.id
      → IsSound (record r { user_heap = put p u' r.user_heap })
  put_user-IsSound p u u' e same = record {
    user_live = λ i q f.
        let live = v.user_live i q f in
        find-put_live (λ w. w.id ≡ i) p q u' r.user_heap
          (λ s. same ∙ ground (arith, live.1, live.2)) live;
    zone_live = v.zone_live;
    zone_user = v.zone_user;
    server_zone = v.server_zone;
    user_old = λ q w f. elim (find-put-some p q u' r.user_heap f) [
      | inl (s, _) ↦ rw (← s) (v.user_old p u e)
      | inr (_, old) ↦ v.user_old q w old
    ];
    zone_old = v.zone_old;
  }

  -- A zone object written in place: its users are the router's, and no server but its own runs it.
  pub put_zone-IsSound :
      (p : Ref) (z z' : Zone)
      → find p r.zone_heap ≡ some z
      → z'.id ≡ z.id
      → ((j : ℤ) (q : Ref) → find j z'.users ≡ some q → find j r.users ≡ some q)
      → ((i : ℤ) (s : Server) (j : ℤ)
          → find i r.servers ≡ some s
          → find j s.zones ≡ some p
          → z'.server ≡ i)
      → IsSound (record r { zone_heap = put p z' r.zone_heap })
  put_zone-IsSound p z z' e same users runs = record {
    user_live = v.user_live;
    zone_live = λ i q f.
        let live = v.zone_live i q f in
        find-put_live (λ w. w.id ≡ i) p q z' r.zone_heap
          (λ s. same ∙ ground (arith, live.1, live.2)) live;
    zone_user = λ q w j k f g. elim (find-put-some p q z' r.zone_heap f) [
      | inl (_, s) ↦ users j k (rw s g)
      | inr (_, old) ↦ v.zone_user q w j k old g
    ];
    server_zone = λ i s j q f g.
        let (known, own) = v.server_zone i s j q f g in
        (
          known,
          λ w h. elim (find-put-some p q z' r.zone_heap h) [
            | inl (at, t) ↦ rw (← t) (runs i s j f (rw at g))
            | inr (_, old) ↦ own w old
          ],
        );
    user_old = v.user_old;
    zone_old = λ q w f. elim (find-put-some p q z' r.zone_heap f) [
      | inl (s, _) ↦ rw (← s) (v.zone_old p z e)
      | inr (_, old) ↦ v.zone_old q w old
    ];
  }

  -- A server written: the zones that it points to are the router's, and name it.
  pub put_server-IsSound :
      (i : ℤ) (s : Server)
      → ((j : ℤ) (p : Ref)
          → find j s.zones ≡ some p
          → (find j r.zones ≡ some p) × ((z : Zone) → find p r.zone_heap ≡ some z → z.server ≡ i))
      → IsSound (record r { servers = put i s r.servers })
  put_server-IsSound i s zones = record {
    user_live = v.user_live;
    zone_live = v.zone_live;
    zone_user = v.zone_user;
    server_zone = λ k t j p f g. elim (find-put-some i k s r.servers f) [
      | inl (at, same) ↦ let (known, own) = zones j p (rw same g) in (known, λ z h. own z h ∙ at)
      | inr (_, old) ↦ v.server_zone k t j p old g
    ];
    user_old = v.user_old;
    zone_old = v.zone_old;
  }
