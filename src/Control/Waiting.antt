-- ===== src/Control/Waiting.antt =====
-- When the main loop stops waiting for the servers' loads.
use pxc_prop_strikes_back.Base.{
  ℕ, zero, suc, ◌-◌, ◌<◌, ◌≤◌, ℤ, pos, ◌≡◌, ◌≢◌, refl, ◌∙◌, Bool, true, false, ◌||◌, ◌&&◌, List, [],
  ◌∷◌, ◌++◌, Option, some, ◌>>=◌, ltb, leb, ◌==◌, find, put, nat_key, eq_int, replicate, Map, arith,
  Bool-cases, Option-cases, inl, inr, ==_iff, find-put_self, find-put_ne, Doubles,
}
use pxc_prop_strikes_back.Control.State.{Ref, Server, Control}
use pxc_prop_strikes_back.Control.Loads.{
  initial_mask, clear_bit, waits, clear_server, enter_load, load_received,
}

abbrev pub bit : ℕ → List Bool → Bool
bit k [] = false
bit zero (b ∷ bs) = b
bit (suc k) (b ∷ bs) = bit k bs

pub bit-clear_bit_self : (k : ℕ) (m : List Bool) → bit k (clear_bit k m) ≡ false
unfolding clear_bit
bit-clear_bit_self k [] = refl
bit-clear_bit_self zero (b ∷ bs) = refl
bit-clear_bit_self (suc k) (b ∷ bs) = bit-clear_bit_self k bs

pub bit-clear_bit_ne : (k j : ℕ) (m : List Bool) → j ≢ k → bit k (clear_bit j m) ≡ bit k m
unfolding clear_bit
bit-clear_bit_ne k j [] ne = refl
bit-clear_bit_ne zero zero (b ∷ bs) ne = absurd (ne refl)
bit-clear_bit_ne (suc k) zero (b ∷ bs) ne = refl
bit-clear_bit_ne zero (suc j) (b ∷ bs) ne = refl
bit-clear_bit_ne (suc k) (suc j) (b ∷ bs) ne = bit-clear_bit_ne k j bs (ground arith)

-- A bit that is cleared stays so.
pub bit-clear_bit_off : (k j : ℕ) (m : List Bool) → bit k m ≡ false → bit k (clear_bit j m) ≡ false
bit-clear_bit_off k j m h = elim (Bool-cases (j == k)) [
  | inl e ↦ let at : j ≡ k = ground (arith, ==_iff j k) in rw at (bit-clear_bit_self k m)
  | inr e ↦ bit-clear_bit_ne k j m (ground (arith, ==_iff j k)) ∙ h
]

pub waits-bit : (k : ℕ) (m : List Bool) → bit k m ≡ true → waits m ≡ true
unfolding waits
waits-bit k [] h = absurd (ground arith)
waits-bit zero (b ∷ bs) h = rw h refl
waits-bit (suc k) (b ∷ bs) h = ground (arith, waits-bit k bs h)

pub no_bit-waits : (m : List Bool) → ((k : ℕ) → bit k m ≡ false) → waits m ≡ false
unfolding waits
no_bit-waits [] h = refl
no_bit-waits (b ∷ bs) h = ground (arith, h 0, no_bit-waits bs (λ k. h (suc k)))

bit-replicate-false : (k n : ℕ) → bit k (replicate n false) ≡ false
bit-replicate-false k zero = refl
bit-replicate-false zero (suc n) = refl
bit-replicate-false (suc k) (suc n) = bit-replicate-false k n

bit-append_off : (k n m : ℕ) → n ≤ k → bit k (replicate n true ++ replicate m false) ≡ false
bit-append_off k zero m h = bit-replicate-false k m
bit-append_off zero (suc n) m h = absurd (omega arith)
bit-append_off (suc k) (suc n) m h = bit-append_off k n m (omega arith)

-- The initial mask has no bit but those of the first servers.
pub initial_mask_off : (n k : ℕ) (m : List Bool) → initial_mask n ≡ some m → n ≤ k → bit k m ≡ false
unfolding initial_mask
initial_mask_off n k m e h = elim (Bool-cases (leb 1 n && leb n 32)) [
  | inl f ↦
      let same : replicate n true ++ replicate (32 - n) false ≡ m = ground arith in
      rw (← same) (bit-append_off k n (32 - n) h)
  | inr f ↦ absurd (ground arith)
]

module _ {D : Type 0} where
  -- The ids of the servers in a list.
  abbrev pub server_ids : List Ref → Map Ref (Server D) → Option (List ℤ)
  server_ids [] m = some []
  server_ids (p ∷ ps) m = do s ← find p m; rest ← server_ids ps m; some (s.id ∷ rest)

  -- A server written over with its id does not change them.
  pub server_ids-put :
      (p : Ref) (s s' : Server D) (m : Map Ref (Server D)) (ps : List Ref)
      → find p m ≡ some s
      → s'.id ≡ s.id
      → server_ids ps (put p s' m) ≡ server_ids ps m
  server_ids-put p s s' m [] e same = refl
  server_ids-put p s s' m (q ∷ qs) e same = elim (Bool-cases (p == q)) [
    | inl at ↦
        let eq : p ≡ q = ground (arith, ==_iff p q) in
        rw (← eq)
          (rw (find-put_self p s' m, e) (rw (server_ids-put p s s' m qs e same) (rw same refl)))
    | inr other ↦
        let ne : p ≢ q = ground (arith, ==_iff p q) in
        rw (find-put_ne p q s' m ne, server_ids-put p s s' m qs e same) refl
  ]

abbrev pub mem_int : ℤ → List ℤ → Bool
mem_int i [] = false
mem_int i (j ∷ js) = eq_int j i || mem_int i js

module _ {D : Type 0} ⦃double : Doubles D⦄ where
  -- What a report can do to the state.
  abbrev pub Reported : (List Bool → List Bool) → Control D → Control D → Type 0
  Reported f r t =
      (t.received_mask ≡ f r.received_mask)
      × (t.servers ≡ r.servers)
      × ((ps : List Ref) → server_ids ps t.heap ≡ server_ids ps r.heap)

  -- The last report of a server that is in the list.
  pub load_received_known :
      (ps : List Ref) (ids : List ℤ) (k : ℕ) (zone : ℤ) (load : D) (r : Control D)
      → server_ids ps r.heap ≡ some ids
      → mem_int (pos k) ids ≡ true
      → k < 32
      → (t : Control D) × (load_received ps (pos k) zone load (pos 0) r ≡ some t)
        × Reported (clear_bit k) r t
  unfolding load_received clear_server
  load_received_known [] ids k zone load r e h small = absurd (ground arith)
  load_received_known (p ∷ ps) ids k zone load r e h small = elim (Option-cases (find p r.heap)) [
    | inl f ↦ absurd (ground arith)
    | inr (s, f) ↦ elim (Option-cases (server_ids ps r.heap)) [
      | inl g ↦ absurd (ground arith)
      | inr (rest, g) ↦
          let split : s.id ∷ rest ≡ ids = ground arith in
          elim (Bool-cases (eq_int s.id (pos k))) [
            | inl at ↦
                let zones = enter_load zone load s.distribution s.total_load in
                let s' : Server D = record s { distribution = zones.0; total_load = zones.1 } in
                let few : ltb k 32 ≡ true = ground arith in
                (
                  record r { heap = put p s' r.heap; received_mask = clear_bit k r.received_mask },
                  rw f (rw at (rw few refl)),
                  (refl, refl, λ qs. server_ids-put p s s' r.heap qs f refl),
                )
            | inr other ↦
                let here : mem_int (pos k) rest ≡ true = ground arith in
                rw f (rw other (load_received_known ps rest k zone load r g here small))
          ]
    ]
  ]

  -- A report that is not the last one of its server: the mask stays.
  pub load_received_early :
      (ps : List Ref) (ids : List ℤ) (id zone : ℤ) (load : D) (remaining : ℤ) (r : Control D)
      → server_ids ps r.heap ≡ some ids
      → eq_int remaining (pos 0) ≡ false
      → (t : Control D) × (load_received ps id zone load remaining r ≡ some t)
        × Reported (λ m. m) r t
  unfolding load_received
  load_received_early [] ids id zone load remaining r e more = (r, refl, (refl, refl, λ qs. refl))
  load_received_early (p ∷ ps) ids id zone load remaining r e more =
      elim (Option-cases (find p r.heap)) [
        | inl f ↦ absurd (ground arith)
        | inr (s, f) ↦ elim (Option-cases (server_ids ps r.heap)) [
          | inl g ↦ absurd (ground arith)
          | inr (rest, g) ↦ elim (Bool-cases (eq_int s.id id)) [
            | inl at ↦
                let zones = enter_load zone load s.distribution s.total_load in
                let s' : Server D = record s { distribution = zones.0; total_load = zones.1 } in
                let r' : Control D = record r { heap = put p s' r.heap } in
                let same : (qs : List Ref) → server_ids qs r'.heap ≡ server_ids qs r.heap =
                  λ qs. server_ids-put p s s' r.heap qs f refl in
                let (t, h, (mask, servers, ids_kept)) =
                  load_received_early ps rest id zone load remaining r' (same ps ∙ g) more in
                (t, rw f (rw at (rw more h)), (mask, servers, λ qs. ids_kept qs ∙ same qs))
            | inr other ↦
                let (t, h, kept) = load_received_early ps rest id zone load remaining r g more in
                (t, rw f (rw other h), kept)
          ]
        ]
      ]
