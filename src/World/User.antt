-- ===== src/World/User.antt =====
-- `PXCZone::User` of servjuego/game/src/PXCZone.cpp and cliente/game/src/PXCZone.cpp, which are the
-- same.
use pxc_prop_strikes_back.Base.{if◌then◌else◌, Doubles}

pub record Vector (D : Type 0) : Type 0 where
  pub x : D
  pub y : D
  pub z : D

pub record User (D : Type 0) : Type 0 where
  pub position : Vector D
  pub direction : Vector D
  pub destination : Vector D
  pub speed : D

module _ {D : Type 0} ⦃double : Doubles D⦄ where
  -- `normalizeDirection`, which works on the destination.
  unfoldable pub normalize_direction : User D → User D
  normalize_direction u =
      let d = u.destination in
      let length =
        double.sqrt (
          double.add (double.add (double.mul d.x d.x) (double.mul d.y d.y)) (double.mul d.z d.z)) in
      if double.equal length double.zero then u else record u {
        destination = record {
          x = double.div d.x length;
          y = double.div d.y length;
          z = double.div d.z length;
        };
      }

  unfoldable pub new : Vector D → Vector D → User D
  unfolding normalize_direction
  new position direction = normalize_direction (record {
    position = position;
    direction = direction;
    destination = record { x = double.zero; y = double.zero; z = double.zero };
    speed = double.zero;
  })

  unfoldable pub set_destination : Vector D → User D → User D
  unfolding normalize_direction
  set_destination d u = normalize_direction (record u {
    destination = d;
    direction = record {
      x = double.sub d.x u.position.x;
      y = double.sub d.y u.position.y;
      z = double.sub d.z u.position.z;
    };
  })

  -- `a[0] - b[0] + a[1] - b[1] + a[2] - b[2]`, under the root.
  abbrev distance : Vector D → Vector D → D
  distance a b =
      double.sqrt
        (double.sub (double.add (double.sub (double.add (double.sub a.x b.x) a.y) b.y) a.z) b.z)

  abbrev along : D → User D → D → D → D
  along step u p d = double.add p (double.mul (double.mul d u.speed) step)

  unfoldable pub update : D → User D → User D
  update step u =
      let next : Vector D = record {
        x = along step u u.position.x u.direction.x;
        y = along step u u.position.y u.direction.y;
        z = along step u u.position.z u.direction.z;
      } in
      if double.less (distance u.destination u.position) (distance next u.position)
      then record u { position = u.destination }
      else record u { position = next }
