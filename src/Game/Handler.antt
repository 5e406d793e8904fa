-- ===== src/Game/Handler.antt =====
-- servjuego/src/ZoneHandler.cpp, Zone.cpp and game/src/PXCZone.cpp: a zone of a game server, with
-- its users, its load and its time dilation.
use pxc_prop_strikes_back.Base.{
  ℕ, suc, ℤ, minus_one, Bool, false, ◌&&◌, ◌||◌, List, [], ◌∷◌, if◌then◌else◌, eq_int, Doubles,
}

-- `users` is the set `mUsers` of the zone.
pub record Handler (D : Type 0) : Type 0 where
  pub users : List ℤ
  pub detachable : ℤ
  pub min_step_time : D
  pub max_step_time : D
  pub boundary : D
  pub decreaser : D
  pub delay : D
  pub load : D

-- The constants of the constructor: the shortest and the longest step, the boundary of time dilation
-- and its factor.
pub record Defaults (D : Type 0) : Type 0 where
  pub min_step_time : D
  pub max_step_time : D
  pub boundary : D
  pub decreaser : D

unfoldable pub has_user : ℤ → List ℤ → Bool
has_user id [] = false
has_user id (u ∷ us) = eq_int u id || has_user id us

-- `PXCZone::addUser` and `PXCZone::delUser`, of the set of users.
unfoldable pub add_user : ℤ → List ℤ → List ℤ
unfolding has_user
add_user id us = if has_user id us then us else id ∷ us

unfoldable pub del_user : ℤ → List ℤ → List ℤ
del_user id [] = []
del_user id (u ∷ us) = let rest = del_user id us in if eq_int u id then rest else u ∷ rest

-- The variables of the loop: `step_time`, the steps of this second, and its time so far.
pub record Loop (D : Type 0) : Type 0 where
  pub handler : Handler D
  pub step_time : D
  pub steps : ℕ
  pub till_second : D

module _ {D : Type 0} ⦃double : Doubles D⦄ where
  unfoldable pub new : Defaults D → Handler D
  new d = record {
    users = [];
    detachable = minus_one;
    min_step_time = d.min_step_time;
    max_step_time = d.max_step_time;
    boundary = d.boundary;
    decreaser = d.decreaser;
    delay = double.one;
    load = double.zero;
  }

  unfoldable pub mask_as_detachable : ℤ → Handler D → Handler D
  mask_as_detachable server h = record h { detachable = server }

  -- The two lines that keep the load from 0 to 1.
  unfoldable pub clamp : D → D
  clamp x =
      let high = if double.less double.one x then double.one else x in
      if double.less high double.zero then double.zero else high

  -- The load of the last second, from its average step.
  unfoldable pub load_of : Handler D → D → D
  unfolding clamp
  load_of h average =
      clamp (
        double.div (double.sub average h.min_step_time)
          (double.sub h.max_step_time h.min_step_time))

  -- The delay: over the boundary it decreases, and under it it is 1 again.
  unfoldable pub dilate : Handler D → D → D
  dilate h load =
      if double.less h.boundary load
      then double.mul h.delay h.decreaser
      else if double.less h.delay double.one && double.less load h.boundary
      then double.one
      else h.delay

  unfoldable pub second_over : Handler D → D → Handler D
  unfolding load_of dilate
  second_over h average =
      let load = load_of h average in record h { load = load; delay = dilate h load }

  -- One turn of the loop of `startThread`, after the game's step: `measured` is the time since the
  -- last turn, which waiting does not change.
  unfoldable pub turn : D → Loop D → Loop D
  unfolding second_over
  turn measured l =
      let till = double.add l.till_second measured in
      if double.less till double.one
      then record l { step_time = measured; steps = suc l.steps; till_second = till }
      else record {
        handler = second_over l.handler (double.div till (double.from_int (suc l.steps)));
        step_time = measured;
        steps = 0;
        till_second = double.zero;
      }
