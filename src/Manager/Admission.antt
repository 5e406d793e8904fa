-- ===== src/Manager/Admission.antt =====
-- Which connections a manager receives from, and what the check for offline ones does
-- (conexion/source/ConnectionManager.cpp).
use pxc_prop_strikes_back.Base.{
  ◌≡◌, refl, ℕ, zero, suc, Bool, true, false, List, [], ◌∷◌, ◌++◌, Option, none, some, ◌>>=◌,
  if◌then◌else◌, Bool-cases, Option-cases, inl, inr, arith,
}
use mathlib.Core.Option.{some_inj}
use pxc_prop_strikes_back.Wire.Sending.{Link, close, shut_down, join_listener}
use pxc_prop_strikes_back.Manager.Connections.{
  Peer, Manager, check_from, check_conexions_offline, Attempt, no_accept, no_handshake, connects,
  accepted, admit, reject, attempt, listen_turn, push_back,
}

-- The connections that are online.
abbrev pub keep_online : List (Option Peer) → List (Option Peer)
keep_online [] = []
keep_online (none ∷ ps) = keep_online ps
keep_online (some p ∷ ps) = if p.link.online then some p ∷ keep_online ps else keep_online ps

-- What the connections' own threads do meanwhile: the connection at a place in the list goes
-- offline.
abbrev pub take_offline : ℕ → List (Option Peer) → List (Option Peer)
take_offline k [] = []
take_offline zero (none ∷ ps) = none ∷ ps
take_offline zero (some p ∷ ps) =
    some (record p { link = record p.link { online = false; ssl = false } }) ∷ ps
take_offline (suc k) (p ∷ ps) = p ∷ take_offline k ps

pub data Turn : Type 0 where
  listens : Attempt → Turn
  goes_offline : ℕ → Turn

module _ (shutdown : ℕ → Bool) (fuel : ℕ) where
  unfoldable pub one_turn : Bool → Turn → Manager → Option Manager
  unfolding listen_turn
  one_turn bidirectional (listens a) m = listen_turn shutdown fuel bidirectional a m
  one_turn bidirectional (goes_offline k) m =
      some (record m { connections = take_offline k m.connections })

  unfoldable pub all_turns : Bool → List Turn → Manager → Option Manager
  unfolding one_turn
  all_turns bidirectional [] m = some m
  all_turns bidirectional (t ∷ ts) m = do
    u ← one_turn bidirectional t m
    all_turns bidirectional ts u

  check_from-keep_online :
      (ps : List (Option Peer)) → check_from shutdown fuel false ps ≡ some (keep_online ps)
  unfolding check_from close
  check_from-keep_online [] = refl
  check_from-keep_online (none ∷ ps) = check_from-keep_online ps
  check_from-keep_online (some p ∷ ps) = elim (Bool-cases p.link.online) [
    | inl on ↦ simp (on, check_from-keep_online ps)
    | inr off ↦ simp (off, check_from-keep_online ps)
  ]

  -- The check for offline connections, where the list is not empty: if the first connection is
  -- online, exactly the connections that are online are kept, in their order; if it is offline, the
  -- iterator is decremented at the begin of the list, a fault.
  pub check_conexions_offline_lem :
      (m : Manager) (p : Peer) (ps : List (Option Peer))
      → m.connections ≡ some p ∷ ps
      → (p.link.online ≡ true
          → check_conexions_offline shutdown fuel m
            ≡ some (record m { connections = keep_online m.connections }))
        × (p.link.online ≡ false → check_conexions_offline shutdown fuel m ≡ none)
  unfolding check_conexions_offline check_from close
  check_conexions_offline_lem m p ps e =
      (λ on. simp (e, on, check_from-keep_online ps), λ off. simp (e, off))

  -- A manager that wants certificates, with no connection yet, meets a peer with a wrong one, and
  -- OpenSSL shuts that connection down: the next turn faults, whatever it would meet.
  pub rejected_first :
      (m : Manager) (n : ℕ)
      → m.listening ≡ true
      → m.connections ≡ []
      → shut_down shutdown fuel 0 ≡ some n
      → (t : Manager) × (listen_turn shutdown fuel true (connects false) m ≡ some t)
        × ((a : Attempt) → listen_turn shutdown fuel true a t ≡ none)
  unfolding listen_turn check_conexions_offline check_from attempt reject accepted close
  rejected_first m n on empty ends =
      let l : Link = record {
        online = false;
        ssl = false;
        on_close = false;
        listening = false;
        closed_calls = 0;
        written = [];
      } in
      let t : Manager = record m {
        connections = some (record { link = l; callback = false; certified = false }) ∷ [];
      } in
      (t, simp (on, empty, ends), λ a. simp on)

-- Received from only with a good certificate.
abbrev pub AllAdmitted : List (Option Peer) → Type 0
AllAdmitted [] = Unit {0}
AllAdmitted (none ∷ ps) = AllAdmitted ps
AllAdmitted (some p ∷ ps) = (p.link.listening ≡ true → p.certified ≡ true) × AllAdmitted ps

keep_online-AllAdmitted : (ps : List (Option Peer)) → AllAdmitted ps → AllAdmitted (keep_online ps)
keep_online-AllAdmitted [] h = tt
keep_online-AllAdmitted (none ∷ ps) h = keep_online-AllAdmitted ps h
keep_online-AllAdmitted (some p ∷ ps) (h, rest) = elim (Bool-cases p.link.online) [
  | inl on ↦ rw on (h, keep_online-AllAdmitted ps rest)
  | inr off ↦ rw off (keep_online-AllAdmitted ps rest)
]

take_offline-AllAdmitted :
    (k : ℕ) (ps : List (Option Peer)) → AllAdmitted ps → AllAdmitted (take_offline k ps)
take_offline-AllAdmitted k [] h = tt
take_offline-AllAdmitted zero (none ∷ ps) h = h
take_offline-AllAdmitted zero (some p ∷ ps) h = h
take_offline-AllAdmitted (suc k) (none ∷ ps) h = take_offline-AllAdmitted k ps h
take_offline-AllAdmitted (suc k) (some p ∷ ps) (h, rest) = (h, take_offline-AllAdmitted k ps rest)

AllAdmitted-append :
    (ps : List (Option Peer)) (p : Peer)
    → AllAdmitted ps
    → (p.link.listening ≡ true → p.certified ≡ true)
    → AllAdmitted (ps ++ some p ∷ [])
AllAdmitted-append [] p h k = (k, tt)
AllAdmitted-append (none ∷ ps) p h k = AllAdmitted-append ps p h k
AllAdmitted-append (some q ∷ ps) p (g, h) k = (g, AllAdmitted-append ps p h k)

module _ (shutdown : ℕ → Bool) (fuel : ℕ) where
  check_from-AllAdmitted :
      (ps qs : List (Option Peer))
      → check_from shutdown fuel true ps ≡ some qs
      → AllAdmitted ps
      → AllAdmitted qs
  unfolding check_from close
  check_from-AllAdmitted [] qs e h = rw (← some_inj.0 e) h
  check_from-AllAdmitted (none ∷ ps) qs e h = absurd (ground arith)
  check_from-AllAdmitted (some p ∷ ps) qs e (h, rest) = elim (Bool-cases p.link.online) [
    | inr off ↦ absurd (ground arith)
    | inl on ↦
        let kept : some (some p ∷ keep_online ps) ≡ some qs =
          ground (arith, check_from-keep_online shutdown fuel ps) in
        rw (← (some_inj.0 kept)) (h, keep_online-AllAdmitted ps rest)
  ]

  reject-listening :
      (certified : Bool) (p : Peer)
      → reject shutdown fuel (accepted certified) ≡ some p
      → p.link.listening ≡ false
  unfolding reject accepted close join_listener
  reject-listening certified p e = elim (Option-cases (shut_down shutdown fuel 0)) [
    | inl f ↦ absurd (ground arith)
    | inr (n, f) ↦ ground arith
  ]

  attempt-AllAdmitted :
      (a : Attempt) (m t : Manager)
      → attempt shutdown fuel true a m ≡ some t
      → AllAdmitted m.connections
      → AllAdmitted t.connections
  unfolding attempt admit accepted
  attempt-AllAdmitted no_accept m t e h = rw (← some_inj.0 e) h
  attempt-AllAdmitted no_handshake m t e h = rw (← some_inj.0 e) h
  attempt-AllAdmitted (connects true) m t e h =
      rw (← some_inj.0 e) (AllAdmitted-append m.connections _ h (λ on. refl))
  attempt-AllAdmitted (connects false) m t e h =
      elim (Option-cases (reject shutdown fuel (accepted false))) [
        | inl f ↦ absurd (ground arith)
        | inr (p, f) ↦
            let added : some (push_back m p) ≡ some t = ground arith in
            rw (← some_inj.0 added) (
              AllAdmitted-append m.connections p h
                (λ on. absurd (ground (arith, reject-listening false p f))))
      ]

  one_turn-AllAdmitted :
      (x : Turn) (m t : Manager)
      → one_turn shutdown fuel true x m ≡ some t
      → AllAdmitted m.connections
      → AllAdmitted t.connections
  unfolding one_turn listen_turn check_conexions_offline
  one_turn-AllAdmitted (goes_offline k) m t e h =
      rw (← some_inj.0 e) (take_offline-AllAdmitted k m.connections h)
  one_turn-AllAdmitted (listens a) m t e h = elim (Bool-cases m.listening) [
    | inr off ↦ let same : some m ≡ some t = ground arith in rw (← some_inj.0 same) h
    | inl on ↦ elim (Option-cases (check_from shutdown fuel true m.connections)) [
      | inl f ↦ absurd (ground arith)
      | inr (qs, f) ↦
          let met : attempt shutdown fuel true a (record m { connections = qs }) ≡ some t =
            ground arith in
          attempt-AllAdmitted a (record m { connections = qs }) t met
            (check_from-AllAdmitted m.connections qs f h)
    ]
  ]

  -- A manager that wants certificates, whose connections all do, over any turns of its listening
  -- thread, between which connections go offline: every connection that it then receives from had a good
  -- certificate.
  pub all_turns_admitted :
      (xs : List Turn) (m t : Manager)
      → AllAdmitted m.connections
      → all_turns shutdown fuel true xs m ≡ some t
      → AllAdmitted t.connections
  unfolding all_turns
  all_turns_admitted [] m t h e = rw (← some_inj.0 e) h
  all_turns_admitted (x ∷ xs) m t h e = elim (Option-cases (one_turn shutdown fuel true x m)) [
    | inl f ↦ absurd (ground arith)
    | inr (u, f) ↦
        let rest : all_turns shutdown fuel true xs u ≡ some t = ground arith in
        all_turns_admitted xs u t (one_turn-AllAdmitted x m u f h) rest
  ]
