-- ===== src/World/Membership.antt =====
-- Who is in a zone (servjuego/game/src/PXCZone.cpp).
use pxc_prop_strikes_back.Base.{
  ◌≡◌, ◌∙◌, refl, sym, ap, inl, inr, ℤ, eq_int, eq_int_iff, Bool, true, false, List, [], ◌∷◌, some,
  is_some, if◌then◌else◌, find, erase, find-put, find-erase, int_key, Doubles, Bool-cases,
  Option-cases, arith,
}
use pxc_prop_strikes_back.Game.Handler
use pxc_prop_strikes_back.World.Zone.{
  Zone, first_user, add_user, del_user, Move, joins, leaves, move, all_moves,
}

-- Who is in a zone after some moves, by the last that names the user.
abbrev pub is_in : ℤ → List Move → Bool → Bool
is_in i [] b = b
is_in i (joins k ∷ ms) b = is_in i ms (if eq_int k i then true else b)
is_in i (leaves k ∷ ms) b = is_in i ms (if eq_int k i then false else b)

has_user-add_user :
    (k i : ℤ) (us : List ℤ)
    → Handler.has_user i (Handler.add_user k us)
      ≡ (if eq_int k i then true else Handler.has_user i us)
unfolding Handler.has_user Handler.add_user
has_user-add_user k i us = elim (Bool-cases (eq_int k i)) [
  | inl same ↦
      let at : k ≡ i = (eq_int_iff k i).0 same in
      elim (Bool-cases (Handler.has_user k us)) [
        | inl old ↦ rw (old, same) (ap (λ j. Handler.has_user j us) (sym at) ∙ old)
        | inr fresh ↦ simp (fresh, same)
      ]
  | inr other ↦ elim (Bool-cases (Handler.has_user k us)) [
    | inl old ↦ rw (old, other) refl
    | inr fresh ↦ rw (fresh, other) refl
  ]
]

has_user-del_user :
    (k i : ℤ) (us : List ℤ)
    → Handler.has_user i (Handler.del_user k us)
      ≡ (if eq_int k i then false else Handler.has_user i us)
unfolding Handler.has_user Handler.del_user
has_user-del_user k i [] = ground arith
has_user-del_user k i (u ∷ us) =
    ground (arith, eq_int_iff k i, eq_int_iff u k, eq_int_iff u i, has_user-del_user k i us)

module _ {D : Type 0} ⦃double : Doubles D⦄ where
  -- The users of the set are those with data.
  abbrev pub IsAgreed : Zone D → Type 0
  IsAgreed z = (i : ℤ) → is_some (find i z.data_of) ≡ Handler.has_user i z.users

  add_user-IsAgreed :
      (k : ℤ) (z : Zone D)
      → IsAgreed z
      → IsAgreed (add_user k z)
        × ((i : ℤ)
            → Handler.has_user i (add_user k z).users
              ≡ (if eq_int k i then true else Handler.has_user i z.users))
  unfolding add_user
  add_user-IsAgreed k z h = elim (Bool-cases (Handler.has_user k z.users)) [
    | inl old ↦ simp old (
      h,
      λ i. elim (Bool-cases (eq_int k i)) [
        | inl same ↦
            let at : k ≡ i = (eq_int_iff k i).0 same in
            rw same (ap (λ j. Handler.has_user j z.users) (sym at) ∙ old)
        | inr other ↦ rw other refl
      ],
    )
    | inr fresh ↦ simp fresh (
      λ i. ground (arith, find-put k i first_user z.data_of, has_user-add_user k i z.users, h i),
      λ i. elim (Bool-cases (eq_int k i)) [ inl same ↦ rw same refl | inr away ↦ rw away refl ],
    )
  ]

  del_user-IsAgreed :
      (k : ℤ) (z : Zone D)
      → IsAgreed z
      → (t : Zone D) × (del_user k z ≡ some t)
        × IsAgreed t
        × ((i : ℤ)
            → Handler.has_user i t.users
              ≡ (if eq_int k i then false else Handler.has_user i z.users))
  unfolding del_user
  del_user-IsAgreed k z h = elim (Bool-cases (Handler.has_user k z.users)) [
    | inl here ↦ elim (Option-cases (find k z.data_of)) [
      | inl e ↦ absurd (ground (arith, h k))
      | inr (u, e) ↦ (
        record { users = Handler.del_user k z.users; data_of = erase k z.data_of },
        rw (here, e) refl,
        λ i. ground (arith, find-erase k i z.data_of, has_user-del_user k i z.users, h i),
        λ i. has_user-del_user k i z.users,
      )
    ]
    | inr away ↦ (
      z,
      rw away refl,
      h,
      λ i. elim (Bool-cases (eq_int k i)) [
        | inl same ↦
            let at : k ≡ i = (eq_int_iff k i).0 same in
            rw same (ap (λ j. Handler.has_user j z.users) (sym at) ∙ away)
        | inr other ↦ rw other refl
      ],
    )
  ]

  -- Users join and leave a zone in which each user has data and no other: no move faults, that is so
  -- again, and a user is in the zone just if it was the last move that names it that it joins, or,
  -- where no move names it, if it was there before.
  pub all_moves_lem :
      (ms : List Move) (z : Zone D)
      → IsAgreed z
      → (t : Zone D) × (all_moves ms z ≡ some t)
        × IsAgreed t
        × ((i : ℤ) → Handler.has_user i t.users ≡ is_in i ms (Handler.has_user i z.users))
  unfolding all_moves move
  all_moves_lem [] z h = (z, refl, h, λ i. refl)
  all_moves_lem (joins k ∷ ms) z h =
      let (agreed, there) = add_user-IsAgreed k z h in
      let (t, e, a, b) = all_moves_lem ms (add_user k z) agreed in
      (t, e, a, λ i. b i ∙ ap (is_in i ms) (there i))
  all_moves_lem (leaves k ∷ ms) z h =
      let (u, f, agreed, there) = del_user-IsAgreed k z h in
      let (t, e, a, b) = all_moves_lem ms u agreed in
      (t, rw f e, a, λ i. b i ∙ ap (is_in i ms) (there i))
