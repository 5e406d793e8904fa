-- ===== src/Control/Balance.antt =====
-- `Control::balance` and what it calls (servcontrol/src/Control.cpp). `before` is the order of the
-- servers' addresses, by which `servers.sort()` sorts a list of pointers.
use pxc_prop_strikes_back.Base.{
  ℕ, zero, suc, ◌-◌, ℤ, pos, negsuc, minus_one, Bool, true, false, not, ◌&&◌, List, [], ◌∷◌, ◌++◌,
  Option, none, some, ◌>>=◌, if◌then◌else◌, ltb, ◌==◌, find, put, nat_key, length, Doubles,
}
use pxc_prop_strikes_back.Control.State.{
  Ref, ZoneLoad, Server, Control, sends, remove_zone, get_zone, router_change_zone, nzones,
}

-- `list::sort`: an insertion sort, as stable as it.
unfoldable pub insert_sorted : (Ref → Ref → Bool) → Ref → List Ref → List Ref
insert_sorted before p [] = p ∷ []
insert_sorted before p (q ∷ qs) =
    let rest = insert_sorted before p qs in if before q p then q ∷ rest else p ∷ q ∷ qs

unfoldable pub sort : (Ref → Ref → Bool) → List Ref → List Ref
unfolding insert_sorted
sort before [] = []
sort before (p ∷ ps) = insert_sorted before p (sort before ps)

-- `servers.back()`: of an empty list it is a fault, as `servers.front()` is.
unfoldable pub back : List Ref → Option Ref
back [] = none
back (p ∷ []) = some p
back (p ∷ q ∷ qs) = back (q ∷ qs)

unfoldable pub front : List Ref → Option Ref
front [] = none
front (p ∷ ps) = some p

module _ {D : Type 0} ⦃double : Doubles D⦄ where
  -- The loads of the servers in the list.
  unfoldable pub loads : List Ref → Control D → Option (List D)
  loads [] r = some []
  loads (p ∷ ps) r = do s ← find p r.heap; rest ← loads ps r; some (s.total_load ∷ rest)

  unfoldable pub sum_loads : List D → D → D
  sum_loads [] incr = incr
  sum_loads (x ∷ xs) incr = sum_loads xs (double.add incr x)

  unfoldable pub get_average : Control D → Option D
  unfolding loads sum_loads
  get_average r = do
    xs ← loads r.servers r
    some (double.div (sum_loads xs double.zero) (double.from_int r.number_servers))

  unfoldable pub sum_squares : D → List D → D → D
  sum_squares avg [] incr = incr
  sum_squares avg (x ∷ xs) incr =
      sum_squares avg xs (double.add incr (double.square (double.sub x avg)))

  unfoldable pub get_st_dev : Control D → Option D
  unfolding get_average sum_squares
  get_st_dev r = do
    avg ← get_average r
    xs ← loads r.servers r
    let incr = sum_squares avg xs double.zero
    some (
        double.sqrt (
          double.div incr (
            double.from_int
              (if ltb r.number_servers 2 then r.number_servers else r.number_servers - 1))))

  -- `compareServersLoad`; a pointer that is not live counts as not less.
  unfoldable pub compare_servers_load : Control D → Ref → Ref → Bool
  compare_servers_load r p q = elim (find p r.heap) [
    | none ↦ false
    | some s ↦ elim (find q r.heap) [
      | none ↦ false
      | some t ↦ double.less s.total_load t.total_load
    ]
  ]

  -- The position of the least load under `least`, from position `i` on; -1 where there is none.
  unfoldable pub min_load : List (ZoneLoad D) → ℕ → D → ℤ → ℤ
  min_load [] i least at = at
  min_load (z ∷ zs) i least at =
      if double.less z.load least
      then min_load zs (suc i) z.load (pos i)
      else min_load zs (suc i) least at

  unfoldable pub zone_change : Ref → ℤ → Ref → Control D → Option (Control D)
  zone_change source zone destination r = do
    s ← find source r.heap
    d ← find destination r.heap
    some (record r {
      events =
          r.events
          ++ sends s.connection (remove_zone zone)
            ∷ sends d.connection (get_zone zone s.id)
            ∷ sends r.router_connection (router_change_zone zone s.id d.id)
            ∷ [];
    })

  -- `zoneServer[zone] = server`: outside of the array is a fault.
  unfoldable pub write_owner : ℤ → Ref → Control D → Option (Control D)
  write_owner (pos i) p r =
      if ltb i nzones then some (record r { zone_server = put i p r.zone_server }) else none
  write_owner (negsuc i) p r = none

  module _ (before : Ref → Ref → Bool) where
    -- One iteration of the loop, once its condition holds.
    unfoldable pub balance_once : Ref → Ref → Server D → Control D → Option (Control D)
    unfolding min_load zone_change write_owner sort
    balance_once most least s r = do
      let zone = min_load s.distribution 0 double.one minus_one
      r1 ← zone_change most zone least r
      r2 ← write_owner zone least r1
      some (record r2 { servers = sort before r2.servers })

    -- The loop, with the iterations that `numIterations` still allows.
    unfoldable pub balance_loop : ℕ → D → Control D → Option (Control D)
    unfolding back front get_st_dev balance_once
    balance_loop zero deviation r = some r
    balance_loop (suc n) deviation r = do
      most ← back r.servers
      least ← front r.servers
      s ← find most r.heap
      elim (double.less double.one deviation
          && not (length s.distribution == 1)
          && not (most == least)) [
            | true ↦ do
              t ← balance_once most least s r
              deviation' ← get_st_dev t
              balance_loop n deviation' t
            | false ↦ some r
          ]

    -- The first deviation is computed, and replaced by 2.
    unfoldable pub balance : Control D → Option (Control D)
    unfolding balance_loop
    balance r = do
      _ ← back r.servers
      _ ← get_st_dev r
      balance_loop (length r.servers) double.two r

    -- What `main` does once the answers are there.
    unfoldable pub rebalance : Control D → Option (Control D)
    unfolding compare_servers_load sort balance
    rebalance r = balance (record r { servers = sort (compare_servers_load r) r.servers })
