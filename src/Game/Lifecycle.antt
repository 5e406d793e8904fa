-- ===== src/Game/Lifecycle.antt =====
-- The thread of a zone (`ZoneHandler::start`, `startThread`, `run` and `stop` of
-- servjuego/src/ZoneHandler.cpp).
use pxc_prop_strikes_back.Base.{ℕ, suc, Bool, true, false, List, [], ◌∷◌, if◌then◌else◌}

-- Where the thread is: before the game's `init`, at the test of the loop, in the loop before the
-- second test, before the game's `step`, behind it, or at its end.
pub data Stage : Type 0 where
  starting : Stage
  at_head : Stage
  entered : Stage
  stepping : Stage
  measuring : Stage
  finished : Stage

-- `run` is `mRun`, `locked` says that the thread holds `mGameMutex`, and `stopping` that `stop` waits
-- for the thread. `steps` counts the steps of the game.
pub record Life : Type 0 where
  pub run : Bool
  pub locked : Bool
  pub stopping : Bool
  pub stage : Stage
  pub steps : ℕ

-- `start`
unfoldable pub start : Life
start = record { run = false; locked = false; stopping = false; stage = starting; steps = 0 }

-- What the thread does next; `valid` is the answer of the game where it is asked. Where `init`
-- fails, the thread returns with the mutex.
unfoldable pub act_at : Stage → Bool → Life → Life
act_at starting true l = record l { run = true; stage = at_head }
act_at starting false l = record l { locked = true; stage = finished }
act_at at_head valid l =
    if l.run then record l { locked = true; stage = entered } else record l { stage = finished }
act_at entered valid l =
    if l.run then record l { stage = stepping } else record l { stage = measuring }
act_at stepping valid l = record l { run = valid; stage = measuring; steps = suc l.steps }
act_at measuring valid l = record l { locked = false; stage = at_head }
act_at finished valid l = l

unfoldable pub act : Bool → Life → Life
unfolding act_at
act valid l = act_at l.stage valid l

unfoldable pub act_all : List Bool → Life → Life
unfolding act
act_all [] l = l
act_all (valid ∷ vs) l = act_all vs (act valid l)

-- `stop`, up to its `join`, which returns when the thread is finished.
unfoldable pub stop : Life → Life
stop l = record l { run = false; stopping = true }
