-- ===== src/Control/MainLoop.antt =====
-- The loop of `main` in servcontrol/src/Control.cpp: ask for the loads, wait, balance.
use pxc_prop_strikes_back.Base.{
  ℕ, zero, suc, Bool, true, false, ◌&&◌, List, [], ◌∷◌, Option, none, some, ◌>>=◌, if◌then◌else◌,
  Doubles,
}
use pxc_prop_strikes_back.Control.State.{Conn, Ref, Control}
use pxc_prop_strikes_back.Control.Loads.{waits, server_load_received, request_loads}
use pxc_prop_strikes_back.Control.Balance.{rebalance}
use pxc_prop_strikes_back.Control.Reports.{Report}

-- What happens during the loop: a connection's thread executes a report, the alarm goes off, or
-- `main` wakes up and looks at its conditions.
pub data Happening (D : Type 0) : Type 0 where
  reports : Report D → Happening D
  alarm : Happening D
  looks : Happening D

-- `timeout` is set until the alarm of the wait, `break_flag` by the alarm after the balancing.
pub record Main (D : Type 0) : Type 0 where
  pub control : Control D
  pub timeout : Bool
  pub break_flag : Bool

module _ {D : Type 0} ⦃double : Doubles D⦄ where
  -- The wait of a round: `main` leaves it when it looks and the mask is 0 or the time is up. `none`
  -- is a fault, and `some none` that it still waits.
  unfoldable pub wait_loads :
      List (Happening D) → Main D → Option (Option (Main D × List (Happening D)))
  unfolding server_load_received waits
  wait_loads [] m = some none
  wait_loads (reports x ∷ hs) m = do
    r ← server_load_received x.server x.zone x.load x.remaining m.control
    wait_loads hs (record m { control = r })
  wait_loads (alarm ∷ hs) m = wait_loads hs (record m { timeout = false })
  wait_loads (looks ∷ hs) m =
      let rest = wait_loads hs m in
      if waits m.control.received_mask && m.timeout then rest else some (some (m, hs))

  module _ (online : ℕ → Conn → Bool) (before : Ref → Ref → Bool) where
    -- After the wait: `breakflag = 0; timeout = 1`.
    unfoldable pub finish_round :
        Option (Main D × List (Happening D)) → Option (Option (Main D × List (Happening D)))
    unfolding rebalance
    finish_round none = some none
    finish_round (some (m, hs)) = do
      r ← rebalance before m.control
      some (some (record m { control = r; break_flag = false; timeout = true }, hs))

    -- One round, when `main` looks at `breakflag` and it is set.
    unfoldable pub round :
        List (Happening D) → Main D → Option (Option (Main D × List (Happening D)))
    unfolding request_loads wait_loads finish_round
    round hs m = do
      r ← request_loads online m.control.servers m.control
      w ← wait_loads hs (record m { control = r })
      finish_round w

    -- The sleep after a round: the alarm sets `breakflag`, and a report is executed meanwhile.
    unfoldable pub rest :
        List (Happening D) → Main D → Option (Option (Main D × List (Happening D)))
    unfolding server_load_received
    rest [] m = some none
    rest (reports x ∷ hs) m = do
      r ← server_load_received x.server x.zone x.load x.remaining m.control
      rest hs (record m { control = r })
    rest (alarm ∷ hs) m = rest hs (record m { break_flag = true })
    rest (looks ∷ hs) m =
        let later = rest hs m in if m.break_flag then some (some (m, hs)) else later

    -- The loop, for so many rounds: the state at the start of each round.
    unfoldable pub main_loop : ℕ → List (Happening D) → Main D → Option (List (Control D))
    unfolding round rest
    main_loop zero hs m = some []
    main_loop (suc n) hs m = do
      a ← round hs m
      elim a [
        | none ↦ some (m.control ∷ [])
        | some (t, hs') ↦ do
          b ← rest hs' t
          elim b [
            | none ↦ some (m.control ∷ [])
            | some (u, hs'') ↦ do later ← main_loop n hs'' u; some (m.control ∷ later)
          ]
      ]
