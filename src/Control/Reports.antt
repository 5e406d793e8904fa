-- ===== src/Control/Reports.antt =====
-- Sequences of load reports: which of them end the wait of the main loop, and which never do.
use pxc_prop_strikes_back.Base.{
  ℕ, ◌<◌, ℤ, pos, negsuc, ◌≡◌, ◌≢◌, refl, sym, ap, ◌∙◌, Bool, true, false, ◌||◌, ◌&&◌, List, [],
  ◌∷◌, Option, some, ◌>>=◌, ltb, ◌==◌, find, put, nat_key, eq_int, arith, Bool-cases, Option-cases,
  inl, inr, ==_iff, eq_int_iff, Doubles,
}
use pxc_prop_strikes_back.Control.State.{Ref, Server, Control}
use pxc_prop_strikes_back.Control.Loads.{
  initial_mask, clear_bit, waits, clear_server, enter_load, load_received, server_load_received,
}
use pxc_prop_strikes_back.Control.Waiting.{
  bit, bit-clear_bit_self, bit-clear_bit_ne, waits-bit, no_bit-waits, initial_mask_off, server_ids,
  server_ids-put, mem_int, load_received_known, load_received_early,
}

-- A received `ServerLoadRcvd`.
pub record Report (D : Type 0) : Type 0 where
  pub server : ℤ
  pub zone : ℤ
  pub load : D
  pub remaining : ℤ

module _ {D : Type 0} ⦃double : Doubles D⦄ where
  abbrev pub report_all : List (Report D) → Control D → Option (Control D)
  report_all [] r = some r
  report_all (x ∷ xs) r =
      server_load_received x.server x.zone x.load x.remaining r >>= λ t. report_all xs t

  -- Each is a report of a server of the list, with an id that the mask has room for.
  abbrev pub AllKnown : List ℤ → List (Report D) → Type 0
  AllKnown ids [] = Unit {0}
  AllKnown ids (x ∷ xs) =
      ((k : ℕ) × (x.server ≡ pos k) × (k < 32) × (mem_int (pos k) ids ≡ true)) × AllKnown ids xs

  -- The last report of the server is among them.
  abbrev pub reported : ℕ → List (Report D) → Bool
  reported k [] = false
  reported k (x ∷ xs) = (eq_int x.server (pos k) && eq_int x.remaining (pos 0)) || reported k xs

  covers_next :
      (k : ℕ) (x : Report D) (xs : List (Report D)) (m m' : List Bool)
      → x.server ≡ pos k
      → m' ≡ clear_bit k m
      → ((j : ℕ) → bit j m ≡ true → reported j (x ∷ xs) ≡ true)
      → (j : ℕ) → bit j m' ≡ true
      → reported j xs ≡ true
  covers_next k x xs m m' at mask cov j on = elim (Bool-cases (k == j)) [
    | inl eq ↦
        let here : k ≡ j = ground (arith, ==_iff k j) in
        let off : bit j m' ≡ false = rw (mask, here) (bit-clear_bit_self j m) in
        absurd (ground arith)
    | inr ne ↦
        let other : k ≢ j = ground (arith, ==_iff k j) in
        let kept : bit j m ≡ true =
          sym (bit-clear_bit_ne j k m other) ∙ (ap (λ b. bit j b) (sym mask) ∙ on) in
        let skip : eq_int (pos k) (pos j) ≡ false = ground (arith, ==_iff k j) in
        let here : reported j (x ∷ xs) ≡ true = cov j kept in
        let head : eq_int x.server (pos j) ≡ false = rw at skip in ground arith
  ]

  covers_more :
      (j : ℕ) (x : Report D) (xs : List (Report D))
      → eq_int x.remaining (pos 0) ≡ false
      → reported j (x ∷ xs) ≡ true
      → reported j xs ≡ true
  covers_more j x xs more h = elim (Bool-cases (eq_int x.server (pos j))) [
    | inl at ↦ ground arith
    | inr other ↦ ground arith
  ]

  report_all_lem :
      (xs : List (Report D)) (ids : List ℤ) (r : Control D)
      → server_ids r.servers r.heap ≡ some ids
      → AllKnown ids xs
      → ((k : ℕ) → bit k r.received_mask ≡ true → reported k xs ≡ true)
      → (t : Control D) × (report_all xs r ≡ some t) × (waits t.received_mask ≡ false)
  unfolding server_load_received
  report_all_lem [] ids r e last cov = (
    r,
    refl,
    no_bit-waits r.received_mask (λ k. elim (Bool-cases (bit k r.received_mask)) [
      | inl on ↦ absurd (ground (arith, cov k on))
      | inr off ↦ off
    ]),
  )
  report_all_lem (x ∷ xs) ids r e ((k, at, small, known), others) cov =
      elim (Bool-cases (eq_int x.remaining (pos 0))) [
        | inl zero_left ↦
            let rem : x.remaining ≡ pos 0 = (eq_int_iff x.remaining (pos 0)).0 zero_left in
            let (t, f, (mask, servers, same)) =
              load_received_known r.servers ids k x.zone x.load r e known small in
            let ids_kept : server_ids t.servers t.heap ≡ some ids =
              rw servers (same r.servers ∙ e) in
            let (v, g, ends) =
              report_all_lem xs ids t ids_kept others
                (covers_next k x xs r.received_mask t.received_mask at mask cov) in
            (v, rw (at, rem, f) g, ends)
        | inr more_left ↦
            let (t, f, (mask, servers, same)) =
              load_received_early r.servers ids x.server x.zone x.load x.remaining r e more_left in
            let ids_kept : server_ids t.servers t.heap ≡ some ids =
              rw servers (same r.servers ∙ e) in
            let (v, g, ends) = report_all_lem xs ids t ids_kept others (λ j on.
              let here : reported j (x ∷ xs) ≡ true = cov j (ap (λ m. bit j m) (sym mask) ∙ on) in
              covers_more j x xs more_left here) in
            (v, rw f g, ends)
      ]

  module _ (p : Ref) (ps : List Ref) (id zone : ℤ) (load : D) (remaining : ℤ) (r : Control D)
      (s : Server D) (f : find p r.heap ≡ some s) where
    abbrev entered : Control D
    entered =
        let zones = enter_load zone load s.distribution s.total_load in
        record r { heap = put p (record s { distribution = zones.0; total_load = zones.1 }) r.heap }

    pub load_received_last :
        eq_int s.id id ≡ true
        → eq_int remaining (pos 0) ≡ true
        → load_received (p ∷ ps) id zone load remaining r ≡ (
            clear_server id r.received_mask >>= λ mask.
            some (record entered { received_mask = mask }))
    unfolding load_received
    load_received_last at zero_left = rw f (rw (at, zero_left) refl)

    pub load_received_more :
        eq_int s.id id ≡ true
        → eq_int remaining (pos 0) ≡ false
        → load_received (p ∷ ps) id zone load remaining r
          ≡ load_received ps id zone load remaining entered
    unfolding load_received
    load_received_more at more_left = rw f (rw (at, more_left) refl)

    pub load_received_skip :
        eq_int s.id id ≡ false
        → load_received (p ∷ ps) id zone load remaining r
          ≡ load_received ps id zone load remaining r
    unfolding load_received
    load_received_skip other = rw f (rw other refl)

  -- What a report that is not of server `k` leaves as it was.
  abbrev Keeps : ℕ → Control D → Control D → Type 0
  Keeps k r t =
      (bit k t.received_mask ≡ bit k r.received_mask)
      × (t.servers ≡ r.servers)
      × ((qs : List Ref) → server_ids qs t.heap ≡ server_ids qs r.heap)

  last-Keeps :
      (k : ℕ) (id : ℤ) (r t : Control D)
      → id ≢ pos k
      → (clear_server id r.received_mask >>= λ mask. some (record r { received_mask = mask }))
        ≡ some t
      → Keeps k r t
  unfolding clear_server
  last-Keeps k (negsuc j) r t ne e = absurd (ground arith)
  last-Keeps k (pos j) r t ne e = elim (Bool-cases (ltb j 32)) [
    | inl small ↦
        let r' : Control D = record r { received_mask = clear_bit j r.received_mask } in
        let same : r' ≡ t = ground arith in
        let other : j ≢ k = ground arith in
        rw (← same) (bit-clear_bit_ne k j r.received_mask other, refl, λ qs. refl)
    | inr large ↦ absurd (ground arith)
  ]

  load_received-Keeps :
      (ps : List Ref) (k : ℕ) (id zone : ℤ) (load : D) (remaining : ℤ) (r t : Control D)
      → id ≢ pos k
      → load_received ps id zone load remaining r ≡ some t
      → Keeps k r t
  unfolding load_received
  load_received-Keeps [] k id zone load remaining r t ne e =
      let same : r ≡ t = ground arith in rw (← same) (refl, refl, λ qs. refl)
  load_received-Keeps (p ∷ ps) k id zone load remaining r t ne e =
      elim (Option-cases (find p r.heap)) [
        | inl f ↦ absurd (ground arith)
        | inr (s, f) ↦
            let zones = enter_load zone load s.distribution s.total_load in
            let s' : Server D = record s { distribution = zones.0; total_load = zones.1 } in
            let r' : Control D = record r { heap = put p s' r.heap } in
            let ids : (qs : List Ref) → server_ids qs r'.heap ≡ server_ids qs r.heap =
              λ qs. server_ids-put p s s' r.heap qs f refl in
            elim (Bool-cases (eq_int s.id id)) [
              | inl at ↦ elim (Bool-cases (eq_int remaining (pos 0))) [
                | inl zero_left ↦
                    let step = load_received_last p ps id zone load remaining r s f at zero_left in
                    let (a, b, c) = last-Keeps k id r' t ne (sym step ∙ e) in
                    (a, b, λ qs. c qs ∙ ids qs)
                | inr more_left ↦
                    let step = load_received_more p ps id zone load remaining r s f at more_left in
                    let (a, b, c) =
                      load_received-Keeps ps k id zone load remaining r' t ne (sym step ∙ e) in
                    (a, b, λ qs. c qs ∙ ids qs)
              ]
              | inr other ↦
                  load_received-Keeps ps k id zone load remaining r t ne
                    (sym (load_received_skip p ps id zone load remaining r s f other) ∙ e)
            ]
      ]

  load_received_unknown :
      (ps : List Ref) (ids : List ℤ) (id zone : ℤ) (load : D) (remaining : ℤ) (r : Control D)
      → server_ids ps r.heap ≡ some ids
      → mem_int id ids ≡ false
      → load_received ps id zone load remaining r ≡ some r
  unfolding load_received
  load_received_unknown [] ids id zone load remaining r e h = refl
  load_received_unknown (p ∷ ps) ids id zone load remaining r e h =
      elim (Option-cases (find p r.heap)) [
        | inl f ↦ absurd (ground arith)
        | inr (s, f) ↦ elim (Option-cases (server_ids ps r.heap)) [
          | inl g ↦ absurd (ground arith)
          | inr (rest, g) ↦
              let split : s.id ∷ rest ≡ ids = ground arith in
              let other : eq_int s.id id ≡ false = ground arith in
              let there : mem_int id rest ≡ false = ground arith in
              load_received_skip p ps id zone load remaining r s f other
              ∙ load_received_unknown ps rest id zone load remaining r g there
        ]
      ]

  -- If the mask has the bit of a server that is not in the list, no sequence of reports that
  -- returns ends the wait.
  pub waits_for_ever :
      (xs : List (Report D)) (ids : List ℤ) (k : ℕ) (r t : Control D)
      → server_ids r.servers r.heap ≡ some ids
      → mem_int (pos k) ids ≡ false
      → bit k r.received_mask ≡ true
      → report_all xs r ≡ some t
      → waits t.received_mask ≡ true
  unfolding server_load_received
  waits_for_ever [] ids k r t e absent on f =
      let same : r ≡ t = ground arith in rw (← same) (waits-bit k r.received_mask on)
  waits_for_ever (x ∷ xs) ids k r t e absent on f =
      elim (Option-cases (load_received r.servers x.server x.zone x.load x.remaining r)) [
        | inl g ↦ absurd (ground arith)
        | inr (u, g) ↦
            let rest : report_all xs u ≡ some t = ground arith in
            elim (Bool-cases (eq_int x.server (pos k))) [
              | inl eq ↦
                  let at : x.server ≡ pos k = (eq_int_iff x.server (pos k)).0 eq in
                  let absent' : mem_int x.server ids ≡ false = rw at absent in
                  let nothing =
                    load_received_unknown r.servers ids x.server x.zone x.load x.remaining r e
                      absent' in
                  let same : r ≡ u = ground (arith, nothing) in
                  waits_for_ever xs ids k r t e absent on (rw same rest)
              | inr ne ↦
                  let other : x.server ≢ pos k = ground (arith, eq_int_iff x.server (pos k)) in
                  let (kept, servers, same) =
                    load_received-Keeps r.servers k x.server x.zone x.load x.remaining r u other
                      g in
                  waits_for_ever xs ids k u t (rw servers (same r.servers ∙ e)) absent (kept ∙ on)
                    rest
            ]
      ]

  -- Reports on a state whose mask is the initial one for a number of servers, in any order: if each
  -- is a report of a server of the list, with an id under 32, and the last report of every id below
  -- the number is among them, none of them faults and the wait ends.
  pub waits_until_reported :
      (xs : List (Report D)) (ids : List ℤ) (n : ℕ) (r : Control D)
      → server_ids r.servers r.heap ≡ some ids
      → initial_mask n ≡ some r.received_mask
      → AllKnown ids xs
      → ((k : ℕ) → k < n → reported k xs ≡ true)
      → (t : Control D) × (report_all xs r ≡ some t) × (waits t.received_mask ≡ false)
  waits_until_reported xs ids n r e start last all = report_all_lem xs ids r e last λ k on.
      elim (Bool-cases (ltb k n)) [
        | inl below ↦ all k (ground arith)
        | inr above ↦
            absurd
              (let off = initial_mask_off n k r.received_mask start (ground arith) in ground arith)
      ]
