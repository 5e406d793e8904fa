-- ===== src/Control/Rounds.antt =====
-- The second loop of `Control::zoneAssignment`, when the links stay up.
use pxc_prop_strikes_back.Base.{
  ℕ, zero, suc, ◌+◌, ◌-◌, ◌<◌, ◌≤◌, ◌≡◌, refl, Bool, true, List, [], ◌∷◌, Option, some, ◌==◌, find,
  nat_key, arith, Bool-cases, inl, inr, length, ==_iff, Doubles,
}
use pxc_prop_strikes_back.Control.State.{Conn, Ref, Server, Control, nzones}
use pxc_prop_strikes_back.Control.Assignment.{Progress, done, more, turn, one_round, rounds}
use pxc_prop_strikes_back.Control.Coverage.{
  IsCovered, AllLive, IsReady, Given, give_zone_lem, link_online_lem,
}

module _ {D : Type 0} ⦃double : Doubles D⦄ (online : ℕ → Conn → Bool)
    (up : (t : ℕ) (c : Conn) → online t c ≡ true) where
  pub Covered-next :
      (lo z : ℕ) (p : Ref) (r t : Control D)
      → IsCovered lo z r
      → Given z p r t
      → IsCovered lo (suc z) t
  Covered-next lo z p r t h (own, keep, _, _, _, _) i a b = elim (Bool-cases (i == z)) [
    | inl same ↦ let at : i ≡ z = ground (arith, ==_iff i z) in rw at own
    | inr other ↦ keep i (h i a (ground (arith, ==_iff i z)))
  ]

  -- Where the second loop stands: the zones below the next one are given.
  abbrev pub IsGood : ℕ → ℕ → Progress D → Type 0
  IsGood lo least (done t) = IsCovered lo nzones t
  IsGood lo least (more z left t) =
      (z < nzones) × (z + left ≡ nzones) × (least ≤ z) × IsCovered lo z t × IsReady t

  abbrev KeepsLive : Control D → Progress D → Type 0
  KeepsLive r (done t) = Unit {0}
  KeepsLive r (more z left t) = (ps : List Ref) → AllLive ps r.heap → AllLive ps t.heap

  turn_lem :
      (lo z left : ℕ) (p : Ref) (r : Control D) (s : Server D)
      → z < nzones
      → z + left ≡ nzones
      → find p r.heap ≡ some s
      → IsCovered lo z r
      → IsReady r
      → (a : Progress D) × (turn online p z left r ≡ some a) × IsGood lo (suc z) a × KeepsLive r a
  unfolding turn
  turn_lem lo z left p r s h sum e cov live =
      let r' : Control D = record r { clock = suc r.clock } in
      let (t, f, given) = give_zone_lem z p r' s h e in
      let next : IsCovered lo (suc z) t = Covered-next lo z p r' t cov given in
      let (_, _, lives, same, _, _) = given in
      elim (Bool-cases (suc z == nzones)) [
        | inl last ↦
            let at : suc z ≡ nzones = ground (arith, ==_iff (suc z) nzones) in
            (done t, rw (link_online_lem online p r s up e, f, last) refl, rw (← at) next, tt)
        | inr inner ↦ (
          more (suc z) (left - 1) t,
          rw (link_online_lem online p r s up e, f, inner) refl,
          (
            ground (arith, ==_iff (suc z) nzones),
            omega arith,
            omega arith,
            next,
            (rw same live.0, rw same (lives r.servers live.1)),
          ),
          lives,
        )
      ]

  weaken : (lo m n : ℕ) (a : Progress D) → n ≤ m → IsGood lo m a → IsGood lo n a
  weaken lo m n (done t) h good = good
  weaken lo m n (more z left t) h (a, b, c, d, e) = (a, b, omega arith, d, e)

  abbrev pub RoundGood : ℕ → ℕ → Option (Progress D) → Type 0
  RoundGood lo least o = (a : Progress D) × (o ≡ some a) × IsGood lo least a

  -- The rest of a round, after a turn.
  after_turn :
      (lo z k : ℕ) (ps : List Ref) (r : Control D) (a : Progress D)
      (f : ℕ → ℕ → Control D → Option (Progress D))
      → IsGood lo (suc z) a
      → KeepsLive r a
      → AllLive ps r.heap
      → ((z' left' : ℕ) (t : Control D)
          → z' < nzones
          → z' + left' ≡ nzones
          → AllLive ps t.heap
          → IsCovered lo z' t
          → IsReady t
          → RoundGood lo (z' + k) (f z' left' t))
      → RoundGood lo
          (z + suc k)
          (elim a [ done t ↦ some (done t) | more z' left' t ↦ f z' left' t ])
  after_turn lo z k ps r (done t) f good keeps here next = (done t, refl, good)
  after_turn lo z k ps r (more z' left' t) f (h, sum, least, cov, live) keeps here next =
      let (a, e, good) = next z' left' t h sum (keeps ps here) cov live in
      (a, e, weaken lo (z' + k) (z + suc k) a (omega arith) good)

  pub one_round_lem :
      (lo z left : ℕ) (ps : List Ref) (r : Control D)
      → z < nzones
      → z + left ≡ nzones
      → AllLive ps r.heap
      → IsCovered lo z r
      → IsReady r
      → RoundGood lo (z + length ps) (one_round online ps z left r)
  unfolding one_round
  one_round_lem lo z left [] r h sum here cov live =
      (more z left r, refl, (h, sum, omega arith, cov, live))
  one_round_lem lo z left (p ∷ ps) r h sum ((s, e), here) cov live =
      let (a, f, good, keeps) = turn_lem lo z left p r s h sum e cov live in
      rw f (
        after_turn lo z (length ps) ps r a (λ z' left' t. one_round online ps z' left' t) good keeps
          here
          (λ z' left' t h' sum' here' cov' live'.
            one_round_lem lo z' left' ps t h' sum' here' cov' live'))

  -- The rest of the rounds, after one.
  after_round :
      (k m : ℕ) (a : Progress D) (f : ℕ → ℕ → Control D → Option (Progress D))
      → IsGood 0 m a
      → ((z left : ℕ) (t : Control D)
          → z < nzones
          → m ≤ z
          → z + left ≡ nzones
          → IsCovered 0 z t
          → IsReady t
          → (u : Control D) × (f z left t ≡ some (done u)) × IsCovered 0 nzones u)
      → (u : Control D) × (elim a [ done t ↦ some (done t) | more z left t ↦ f z left t ]
          ≡ some (done u))
        × IsCovered 0 nzones u
  after_round k m (done t) f good next = (t, refl, good)
  after_round k m (more z left t) f (h, sum, least, cov, ready) next =
      next z left t h least sum cov ready

  pub rounds_lem :
      (n z left : ℕ) (r : Control D)
      → 1 ≤ n
      → nzones ≤ z + n
      → z + left ≡ nzones
      → IsCovered 0 z r
      → IsReady r
      → (t : Control D) × (rounds online n z left r ≡ some (done t)) × IsCovered 0 nzones t
  unfolding rounds
  rounds_lem zero z left r pos_n h sum cov ready = absurd (omega arith)
  rounds_lem (suc n) z left r pos_n h sum cov ready = elim (Bool-cases (left == 0)) [
    | inl e ↦ let at : z ≡ nzones = ground (arith, ==_iff left 0) in (r, rw e refl, rw (← at) cov)
    | inr e ↦
        let some_left : z < nzones = ground (arith, ==_iff left 0) in
        let (a, f, good) = one_round_lem 0 z left r.servers r some_left sum ready.1 cov ready in
        rw (e, f)
          (after_round n (z + length r.servers) a (λ z' left' t. rounds online n z' left' t) good
            λ z' left' t h' least sum' cov' ready'.
              rounds_lem n z' left' t (omega (arith, ready.0)) (omega (arith, ready.0)) sum' cov'
                ready')
  ]
