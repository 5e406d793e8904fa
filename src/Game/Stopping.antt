-- ===== src/Game/Stopping.antt =====
-- When the thread of a zone ends (servjuego/src/ZoneHandler.cpp).
use pxc_prop_strikes_back.Base.{
  ℕ, suc, ◌-◌, ◌≤◌, ◌≡◌, ◌≢◌, refl, ap, ◌∙◌, ◌⊎◌, inl, inr, Bool, true, false, List, [], ◌∷◌,
  length, arith,
}
use pxc_prop_strikes_back.Game.Lifecycle.{
  Stage, starting, at_head, entered, stepping, measuring, finished, Life, act_at, act, act_all,
  stop,
}

-- How many moves a thread that is not to run has left; 4 where it is to run again.
abbrev left : Stage → ℕ
left starting = 4
left at_head = 1
left entered = 3
left stepping = 4
left measuring = 2
left finished = 0

-- Where the thread holds the mutex of the game.
abbrev pub holds : Stage → Bool
holds starting = false
holds at_head = false
holds entered = true
holds stepping = true
holds measuring = true
holds finished = false

-- Not to run, with so many moves left.
record IsEnding (n : ℕ) (l : Life) : Type 0 where
  off : l.run ≡ false
  near : left l.stage ≤ n
  mutex : l.locked ≡ holds l.stage

act_at-IsEnding :
    (n : ℕ) (s : Stage) (valid : Bool) (l : Life)
    → n ≤ 3
    → l.stage ≡ s
    → IsEnding n l
    → IsEnding (n - 1) (act_at s valid l) × ((act_at s valid l).steps ≡ l.steps)
unfolding act_at
act_at-IsEnding n starting valid l small at h = absurd (omega (arith, h.near, ap left at))
act_at-IsEnding n at_head valid l small at h =
    let free : l.locked ≡ false = h.mutex ∙ ap holds at in
    rw (h.off) (record { off = refl; near = ground arith; mutex = free }, refl)
act_at-IsEnding n entered valid l small at h =
    let held : l.locked ≡ true = h.mutex ∙ ap holds at in
    let three : 3 ≤ n = omega (arith, h.near, ap left at) in
    rw (h.off) (record { off = refl; near = omega (arith, three); mutex = held }, refl)
act_at-IsEnding n stepping valid l small at h = absurd (omega (arith, h.near, ap left at))
act_at-IsEnding n measuring valid l small at h =
    let two : 2 ≤ n = omega (arith, h.near, ap left at) in
    (record { off = h.off; near = omega (arith, two); mutex = refl }, refl)
act_at-IsEnding n finished valid l small at h =
    (record { off = h.off; near = omega (arith, ap left at); mutex = h.mutex }, refl)

act_all-IsEnding :
    (vs : List Bool) (n : ℕ) (l : Life)
    → n ≤ 3
    → IsEnding n l
    → IsEnding (n - length vs) (act_all vs l) × ((act_all vs l).steps ≡ l.steps)
unfolding act_all act
act_all-IsEnding [] n l small h =
    (record { off = h.off; near = omega (arith, h.near); mutex = h.mutex }, refl)
act_all-IsEnding (v ∷ vs) n l small h =
    let (k, same) = act_at-IsEnding n l.stage v l small refl h in
    let (all, steps) = act_all-IsEnding vs (n - 1) (act_at l.stage v l) (omega arith) k in
    let fewer : n - 1 - length vs ≡ n - suc (length vs) = omega arith in
    (rw (← fewer) all, steps ∙ same)

left-finished : (s : Stage) → left s ≤ 0 → s ≡ finished
left-finished starting h = absurd (omega arith)
left-finished at_head h = absurd (omega arith)
left-finished entered h = absurd (omega arith)
left-finished stepping h = absurd (omega arith)
left-finished measuring h = absurd (omega arith)
left-finished finished h = refl

left-ending : (s : Stage) → s ≢ starting → s ≢ stepping → left s ≤ 3
left-ending starting a b = absurd (a refl)
left-ending at_head a b = omega arith
left-ending entered a b = omega arith
left-ending stepping a b = absurd (b refl)
left-ending measuring a b = omega arith
left-ending finished a b = omega arith

-- Every answer of the game is that it goes on.
abbrev pub AllValid : List Bool → Type 0
AllValid [] = Unit {0}
AllValid (v ∷ vs) = (v ≡ true) × AllValid vs

-- To run, in the loop.
abbrev IsRunning : Life → Type 0
IsRunning l = (l.run ≡ true) × (l.stage ≢ finished)

act_at-IsRunning : (s : Stage) (l : Life) → l.stage ≡ s → IsRunning l → IsRunning (act_at s true l)
unfolding act_at
act_at-IsRunning starting l at (on, more) = (refl, λ e. ground arith)
act_at-IsRunning at_head l at (on, more) = rw on (refl, λ e. ground arith)
act_at-IsRunning entered l at (on, more) = rw on (refl, λ e. ground arith)
act_at-IsRunning stepping l at (on, more) = (refl, λ e. ground arith)
act_at-IsRunning measuring l at (on, more) = (on, λ e. ground arith)
act_at-IsRunning finished l at (on, more) = absurd (more at)

act_all-IsRunning :
    (vs : List Bool) (l : Life) → AllValid vs → IsRunning l → IsRunning (act_all vs l)
unfolding act_all act
act_all-IsRunning [] l h r = r
act_all-IsRunning (v ∷ vs) l (e, h) r =
    rw e (act_all-IsRunning vs (act_at l.stage true l) h (act_at-IsRunning l.stage l refl r))

runs_again :
    (l : Life) → (l.stage ≡ starting) ⊎ (l.stage ≡ stepping) → IsRunning (act true (stop l))
unfolding act act_at stop
runs_again l (inl e) = rw e (refl, λ d. ground arith)
runs_again l (inr e) = rw e (refl, λ d. ground arith)

-- The thread of a zone is stopped. If it is neither before its `init` nor between the test and the
-- game's step, then it ends within three moves, without a step of the game and without the mutex.
-- If it is at one of these two places and the game always answers that it goes on, the thread sets
-- `mRun` again and never ends, so `stop` waits for ever.
pub stop_lem :
    (l : Life) (vs : List Bool)
    → l.locked ≡ holds l.stage
    → (l.stage ≢ starting
        → l.stage ≢ stepping
        → 3 ≤ length vs
        → ((act_all vs (stop l)).stage ≡ finished)
          × ((act_all vs (stop l)).steps ≡ l.steps)
          × ((act_all vs (stop l)).locked ≡ false))
      × ((l.stage ≡ starting) ⊎ (l.stage ≡ stepping)
          → AllValid vs
          → (act_all (true ∷ vs) (stop l)).stage ≢ finished)
unfolding stop act_all act
stop_lem l vs consistent = (
  λ a b long.
      let ending : IsEnding 3 (stop l) = record {
        off = refl;
        near = left-ending l.stage a b;
        mutex = consistent;
      } in
      let (k, steps) = act_all-IsEnding vs 3 (stop l) (omega arith) ending in
      let over : (act_all vs (stop l)).stage ≡ finished =
        left-finished (act_all vs (stop l)).stage (omega (arith, k.near, long)) in
      (over, steps, k.mutex ∙ ap holds over),
  λ where_at valid. (act_all-IsRunning vs (act true (stop l)) valid (runs_again l where_at)).1,
)
