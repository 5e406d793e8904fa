-- ===== src/Manager/Closing.antt =====
-- `ConnectionManager::closeManager` and the listening thread (conexion/source/ConnectionManager.cpp).
use pxc_prop_strikes_back.Base.{◌≡◌, ◌≢◌, refl, Bool, true, false, arith}

-- Where the listening thread is: before `setListenOnline(true)`, at the test of its loop, in the call
-- of `accept`, or at its end.
pub data Stage : Type 0 where
  setting_up : Stage
  testing : Stage
  accepting : Stage
  finished : Stage

-- `closing` is set once `closeManager` waits for the thread.
pub record System : Type 0 where
  pub listening : Bool
  pub closing : Bool
  pub stage : Stage

-- `closeManager`, up to its `join`.
unfoldable pub close_manager : System → System
close_manager s = record s { listening = false; closing = true }

-- The listening thread from `setListenOnline(true)` on.
unfoldable pub set_up : System → System
set_up s = record s { listening = true; stage = testing }

abbrev pub at : Stage → System → System
at stage s = record s { stage = stage }

-- The steps of the two threads. `accepts` needs a peer that connects, or an error of the socket:
-- `accept` waits for it, and nothing but that ends the wait. The rest of a turn follows it.
pub data Step : System → System → Type 0 where
  sets_up : (s : System) → s.stage ≡ setting_up → Step s (set_up s)
  gives_up : (s : System) → s.stage ≡ setting_up → Step s (at finished s)
  enters : (s : System) → s.stage ≡ testing → s.listening ≡ true → Step s (at accepting s)
  accepts : (s : System) → s.stage ≡ accepting → Step s (at testing s)
  leaves : (s : System) → s.stage ≡ testing → s.listening ≡ false → Step s (at finished s)
  closes : (s : System) → s.closing ≡ false → Step s (close_manager s)

pub data Reach (s : System) : System → Type 0 where
  here : Reach s s
  next : {t u : System} → Reach s t → Step t u → Reach s u

-- Set up and listening, while `closeManager` waits.
record IsStuck (s : System) : Type 0 where
  closing : s.closing ≡ true
  begun : s.stage ≢ setting_up
  runs : s.stage ≢ finished
  listening : s.listening ≡ true

Step-IsStuck : {s t : System} → Step s t → IsStuck s → IsStuck t
Step-IsStuck (sets_up s e) h = absurd (h.begun e)
Step-IsStuck (gives_up s e) h = absurd (h.begun e)
Step-IsStuck (enters s e f) h = record {
  closing = h.closing;
  begun = ground arith;
  runs = ground arith;
  listening = h.listening;
}
Step-IsStuck (accepts s e) h = record {
  closing = h.closing;
  begun = ground arith;
  runs = ground arith;
  listening = h.listening;
}
Step-IsStuck (leaves s e f) h = absurd (ground (arith, h.listening))
Step-IsStuck (closes s e) h = absurd (ground (arith, h.closing))

Reach-IsStuck : {s t : System} → IsStuck s → Reach s t → IsStuck t
Reach-IsStuck h here = h
Reach-IsStuck h (next r st) = Step-IsStuck st (Reach-IsStuck h r)

-- The system has one step, which leads to `t`.
abbrev pub OnlyStep : System → System → Type 0
OnlyStep s t = Step s t × ((v : System) → Step s v → v ≡ t)

module _ (s : System) (closing : s.closing ≡ true) (silent : s.listening ≡ false) where
  only_leaves : s.stage ≡ testing → OnlyStep s (at finished s)
  only_leaves e = (leaves s e silent, λ v st. ends st e closing silent)
    where
      ends :
          {u v : System}
          → Step u v
          → u.stage ≡ testing
          → u.closing ≡ true
          → u.listening ≡ false
          → v ≡ at finished u
      ends (sets_up u f) e c l = absurd (ground arith)
      ends (gives_up u f) e c l = absurd (ground arith)
      ends (enters u f g) e c l = absurd (ground arith)
      ends (accepts u f) e c l = absurd (ground arith)
      ends (leaves u f g) e c l = refl
      ends (closes u f) e c l = absurd (ground arith)

  only_accepts : s.stage ≡ accepting → OnlyStep s (at testing s)
  only_accepts e = (accepts s e, λ v st. turns st e closing)
    where
      turns : {u v : System} → Step u v → u.stage ≡ accepting → u.closing ≡ true → v ≡ at testing u
      turns (sets_up u f) e c = absurd (ground arith)
      turns (gives_up u f) e c = absurd (ground arith)
      turns (enters u f g) e c = absurd (ground arith)
      turns (accepts u f) e c = refl
      turns (leaves u f g) e c = absurd (ground arith)
      turns (closes u f) e c = absurd (ground arith)

-- A manager is closed. If its thread is at the test of its loop, its one step ends it. If it waits in
-- `accept`, its one step is that one more peer is accepted, so that `closeManager` waits for that
-- peer, and its one step after that ends it. If it has still to set up its socket, and does so after
-- the closing, it never ends, and `closeManager` waits for ever.
pub close_manager_lem :
    (s v : System)
    → (s.stage ≡ testing → OnlyStep (close_manager s) (at finished (close_manager s)))
      × (s.stage ≡ accepting
          → OnlyStep (close_manager s) (at testing (close_manager s))
            × OnlyStep (at testing (close_manager s)) (at finished (close_manager s)))
      × (s.stage ≡ setting_up → Reach (set_up (close_manager s)) v → v.stage ≢ finished)
unfolding close_manager set_up
close_manager_lem s v =
    let closed = close_manager s in
    (
      λ e. only_leaves closed refl refl e,
      λ e. (only_accepts closed refl refl e, only_leaves (at testing closed) refl refl refl),
      λ e r.
          let start : IsStuck (set_up closed) = record {
            closing = refl;
            begun = ground arith;
            runs = ground arith;
            listening = refl;
          } in
          (Reach-IsStuck start r).runs,
    )
