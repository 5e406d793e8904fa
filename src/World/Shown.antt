-- ===== src/World/Shown.antt =====
-- Whom the client shows, and where (cliente/game/src/PXCGame.cpp).
use pxc_prop_strikes_back.Base.{
  ◌≡◌, ◌∙◌, refl, sym, ap, inl, inr, ℤ, eq_int, eq_int_iff, Bool, true, List, [], ◌∷◌, ◌++◌, some,
  is_some, Map, find, put, find-put, find-put_self, int_key, Doubles, Bool-cases, Option-cases,
  arith,
}
use pxc_prop_strikes_back.World.User.{User, Vector}
use pxc_prop_strikes_back.World.Zone.{Zone}
use pxc_prop_strikes_back.World.Play.{update_all, logic, set_user_state, Turn, steps, is_told, play}

module _ {D : Type 0} ⦃double : Doubles D⦄ where
  -- Whether the client has data of a user.
  abbrev pub shows : ℤ → Zone D → Bool
  shows i z = is_some (find i z.data_of)

  shows-update_all :
      (step : D) (i : ℤ) (m : Map ℤ (User D))
      → is_some (find i (update_all step m)) ≡ is_some (find i m)
  unfolding find update_all
  shows-update_all step i [] = refl
  shows-update_all step i ((j, u) ∷ m) = elim (Bool-cases (eq_int j i)) [
    | inl same ↦ rw same refl
    | inr other ↦ rw other (shows-update_all step i m)
  ]

  shows-put :
      (i k : ℤ) (u v : User D) (m : Map ℤ (User D))
      → find k m ≡ some u
      → is_some (find i (put k v m)) ≡ is_some (find i m)
  shows-put i k u v m e = elim (Bool-cases (eq_int k i)) [
    | inl same ↦
        let at : i ≡ k = sym ((eq_int_iff k i).0 same) in
        ap is_some (find-put k i v m) ∙ rw same (sym (ap is_some (ap (λ j. find j m) at ∙ e)))
    | inr other ↦ ap is_some (find-put k i v m) ∙ rw other refl
  ]

  shows-set_user_state :
      (i k : ℤ) (p d : Vector D) (s : D) (z : Zone D)
      → shows i (set_user_state k p d s z) ≡ shows i z
  unfolding set_user_state
  shows-set_user_state i k p d s z = elim (Option-cases (find k z.data_of)) [
    | inl e ↦ rw e refl
    | inr (u, e) ↦ rw e (shows-put i k u _ z.data_of e)
  ]

  shows-play : (ts : List (Turn D)) (i : ℤ) (z : Zone D) → shows i (play ts z) ≡ shows i z
  unfolding play logic
  shows-play [] i z = refl
  shows-play (steps step ∷ ts) i z =
      shows-play ts i (logic step z) ∙ shows-update_all step i z.data_of
  shows-play (is_told k p d s ∷ ts) i z =
      shows-play ts i (set_user_state k p d s z) ∙ shows-set_user_state i k p d s z

  play-append : (ts us : List (Turn D)) (z : Zone D) → play (ts ++ us) z ≡ play us (play ts z)
  unfolding play
  play-append [] us z = refl
  play-append (steps step ∷ ts) us z = play-append ts us (logic step z)
  play-append (is_told k p d s ∷ ts) us z = play-append ts us (set_user_state k p d s z)

  -- Over any steps and any states that the client is told, it shows the users that it showed at the
  -- start, and no other. A user of these is, when it was told last, where it was told, with the
  -- direction and the speed that it was told.
  pub play_lem :
      (ts : List (Turn D)) (z : Zone D) (i : ℤ) (p d : Vector D) (s : D)
      → (shows i (play ts z) ≡ shows i z)
        × (shows i z ≡ true
            → (u : User D) × (find i ((play (ts ++ is_told i p d s ∷ []) z).data_of)
                ≡ some (record u { position = p; direction = d; speed = s })))
  unfolding play set_user_state
  play_lem ts z i p d s = (
    shows-play ts i z,
    λ known. elim (Option-cases (find i ((play ts z).data_of))) [
      | inl e ↦ absurd (ground (arith, shows-play ts i z))
      | inr (u, e) ↦ (u, rw (play-append ts (is_told i p d s ∷ []) z, e) (find-put_self i _ _))
    ],
  )
