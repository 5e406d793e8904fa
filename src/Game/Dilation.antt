-- ===== src/Game/Dilation.antt =====
-- The load and the time dilation of a zone (servjuego/src/ZoneHandler.cpp).
use pxc_prop_strikes_back.Base.{◌≡◌, refl, true, false, Doubles, Bool-cases, inl, inr}
use pxc_prop_strikes_back.Game.Handler.{Handler, clamp, load_of, dilate, second_over}

module _ {D : Type 0} ⦃double : Doubles D⦄ where
  clamp_lem :
      (x : D)
      → double.less double.one double.one ≡ false
      → double.less double.one double.zero ≡ false
      → double.less double.zero double.zero ≡ false
      → (double.less double.one double.zero ≡ false)
        × (double.less double.one (clamp x) ≡ false)
        × (double.less (clamp x) double.zero ≡ false)
  unfolding clamp
  clamp_lem x one_one one_zero zero_zero = elim (Bool-cases (double.less double.one x)) [
    | inl high ↦ rw (high, one_zero) (refl, one_one, one_zero)
    | inr low ↦ elim (Bool-cases (double.less x double.zero)) [
      | inl negative ↦ rw (low, negative) (one_zero, one_zero, zero_zero)
      | inr inside ↦ rw (low, inside) (one_zero, low, inside)
    ]
  ]

  -- After each second the load is not over 1 and not under 0, if 1 is less than neither 1 nor 0 and 0
  -- is not less than 0. Where the load is under the boundary and not over it, the time is not
  -- dilated any more, whatever it was before.
  pub second_over_lem :
      (h : Handler D) (average : D)
      → double.less double.one double.one ≡ false
      → double.less double.one double.zero ≡ false
      → double.less double.zero double.zero ≡ false
      → (double.less double.one (second_over h average).load ≡ false)
        × (double.less (second_over h average).load double.zero ≡ false)
        × (double.less (second_over h average).load h.boundary ≡ true
            → double.less h.boundary (second_over h average).load ≡ false
            → double.less (second_over h average).delay double.one ≡ false)
  unfolding second_over load_of dilate
  second_over_lem h average one_one one_zero zero_zero =
      let x : D =
        double.div (double.sub average h.min_step_time)
          (double.sub h.max_step_time h.min_step_time) in
      let (_, high, low) = clamp_lem x one_one one_zero zero_zero in
      (
        high,
        low,
        λ under over. elim (Bool-cases (double.less h.delay double.one)) [
          | inl dilated ↦ rw (over, dilated, under) one_one
          | inr normal ↦ rw (over, normal) normal
        ],
      )
