-- ===== src/Base/Dict.antt =====
-- `std::map` as an association list in the order of its keys, at every key type with a comparison.
use Prim.Native.Nat.{ℕ}
use mathlib.Core.Path.{◌≡◌, refl}
use mathlib.Core.Logic.{◌↔◌, ◌≢◌, ◌⊎◌, inl, inr}
use mathlib.Core.Bool.{Bool, true, false, ◌&&◌}
use mathlib.Core.Option.{Option, none, some}
use mathlib.Core.List.{List, [], ◌∷◌}
use native.Mathlib.Omega.{arith}
use pxc_prop_strikes_back.Base.Tests.{ltb, ◌==◌, ==_iff, Bool-cases, if◌then◌else◌}
use pxc_prop_strikes_back.Base.Int.{ℤ, eq_int, ltb_int, eq_int_iff}

-- What a key needs: equality as `find` sees it, and the order of iteration.
pub record Key (K : Type 0) : Type 0 where
  pub beq : K → K → Bool
  pub beq_iff : (a b : K) → (beq a b ≡ true) ↔ (a ≡ b)
  pub before : K → K → Bool

instance abbrev pub nat_key : Key ℕ
nat_key = record { beq = ◌==◌; beq_iff = ==_iff; before = ltb }

instance abbrev pub int_key : Key ℤ
int_key = record { beq = eq_int; beq_iff = eq_int_iff; before = ltb_int }

abbrev pub eq_bytes : List ℕ → List ℕ → Bool
eq_bytes [] [] = true
eq_bytes (x ∷ xs) (y ∷ ys) = x == y && eq_bytes xs ys
eq_bytes _ _ = false

abbrev pub before_bytes : List ℕ → List ℕ → Bool
before_bytes [] [] = false
before_bytes [] (y ∷ ys) = true
before_bytes (x ∷ xs) [] = false
before_bytes (x ∷ xs) (y ∷ ys) =
    let rest = before_bytes xs ys in if ltb x y then true else if x == y then rest else false

pub eq_bytes_iff : (a b : List ℕ) → (eq_bytes a b ≡ true) ↔ (a ≡ b)
eq_bytes_iff [] [] = ground arith
eq_bytes_iff [] (y ∷ ys) = ground arith
eq_bytes_iff (x ∷ xs) [] = ground arith
eq_bytes_iff (x ∷ xs) (y ∷ ys) = ground (arith, eq_bytes_iff xs ys)

instance abbrev pub bytes_key : Key (List ℕ)
bytes_key = record { beq = eq_bytes; beq_iff = eq_bytes_iff; before = before_bytes }

abbrev pub Map : Type 0 → Type 0 → Type 0
Map K V = List (K × V)

module _ {K V : Type 0} ⦃key : Key K⦄ where
  -- `find`: `none` is `end()`.
  unfoldable pub find : K → Map K V → Option V
  find k [] = none
  find k ((j, v) ∷ m) = if key.beq j k then some v else find k m

  -- `m[k] = v`
  unfoldable pub put : K → V → Map K V → Map K V
  put k v [] = (k, v) ∷ []
  put k v ((j, w) ∷ m) =
      let rest = put k v m in
      if key.beq j k
      then (k, v) ∷ m
      else if key.before k j
      then (k, v) ∷ (j, w) ∷ m
      else (j, w) ∷ rest

  -- `m.insert(pair)`: an entry that is there stays.
  unfoldable pub insert : K → V → Map K V → Map K V
  unfolding find put
  insert k v m = elim (find k m) [ none ↦ put k v m | some _ ↦ m ]

  unfoldable pub erase : K → Map K V → Map K V
  erase k [] = []
  erase k ((j, w) ∷ m) = let rest = erase k m in if key.beq j k then rest else (j, w) ∷ rest

  -- `m.erase(m.find(k))`: erasing `end()` is a fault.
  unfoldable pub erase_found : K → Map K V → Option (Map K V)
  unfolding find erase
  erase_found k m = elim (find k m) [ none ↦ none | some _ ↦ some (erase k m) ]

  pub find-put :
      (k j : K) (v : V) (m : Map K V)
      → find j (put k v m) ≡ (if key.beq k j then some v else find j m)
  unfolding find put
  find-put k j v [] = refl
  find-put k j v ((i, w) ∷ m) =
      ground (arith, key.beq_iff k j, key.beq_iff i k, key.beq_iff i j, find-put k j v m)

  pub find-erase :
      (k j : K) (m : Map K V) → find j (erase k m) ≡ (if key.beq k j then none else find j m)
  unfolding find erase
  find-erase k j [] = ground arith
  find-erase k j ((i, w) ∷ m) =
      ground (arith, key.beq_iff k j, key.beq_iff i k, key.beq_iff i j, find-erase k j m)

  pub insert_fresh : (k : K) (v : V) (m : Map K V) → find k m ≡ none → insert k v m ≡ put k v m
  unfolding insert
  insert_fresh k v m h = ground arith

  pub insert_old : (k : K) (v w : V) (m : Map K V) → find k m ≡ some w → insert k v m ≡ m
  unfolding insert
  insert_old k v w m h = ground arith

  pub erase_found-some :
      (k : K) (v : V) (m : Map K V) → find k m ≡ some v → erase_found k m ≡ some (erase k m)
  unfolding erase_found
  erase_found-some k v m h = ground arith

  pub erase_found-none : (k : K) (m : Map K V) → find k m ≡ none → erase_found k m ≡ none
  unfolding erase_found
  erase_found-none k m h = ground arith

module _ {K V : Type 0} ⦃key : Key K⦄ where
  pub find-erase_ne : (k j : K) (m : Map K V) → k ≢ j → find j (erase k m) ≡ find j m
  find-erase_ne k j m h = ground (arith, find-erase k j m, key.beq_iff k j)

  pub find-erase-some :
      (k j : K) (m : Map K V) {v : V} → find j (erase k m) ≡ some v → (k ≢ j) × (find j m ≡ some v)
  find-erase-some k j m h = ground (arith, find-erase k j m, key.beq_iff k j)

  pub find-put_self : (k : K) (v : V) (m : Map K V) → find k (put k v m) ≡ some v
  find-put_self k v m = ground (arith, find-put k k v m, key.beq_iff k k)

  pub find-put_ne : (k j : K) (v : V) (m : Map K V) → k ≢ j → find j (put k v m) ≡ find j m
  find-put_ne k j v m h = ground (arith, find-put k j v m, key.beq_iff k j)

  pub find-put-some :
      (k j : K) (v : V) (m : Map K V) {w : V}
      → find j (put k v m) ≡ some w
      → ((k ≡ j) × (v ≡ w)) ⊎ ((k ≢ j) × (find j m ≡ some w))
  find-put-some k j v m h = elim (Bool-cases (key.beq k j)) [
    | inl e ↦ inl ((key.beq_iff k j).0 e, ground (arith, find-put k j v m))
    | inr e ↦ inr (ground (arith, key.beq_iff k j), ground (arith, find-put k j v m))
  ]

module _ {K V : Type 0} ⦃key : Key K⦄ (Q : V → Type 0) where
  -- A value with a property stays one, if the value written over it has the property too.
  pub find-put_live :
      (k j : K) (v : V) (m : Map K V)
      → (k ≡ j → Q v)
      → (w : V) × (find j m ≡ some w) × Q w
      → (w : V) × (find j (put k v m) ≡ some w) × Q w
  find-put_live k j v m new (w, e, q) = elim (Bool-cases (key.beq k j)) [
    | inl b ↦
        let same : k ≡ j = (key.beq_iff k j).0 b in (v, ground (arith, find-put k j v m), new same)
    | inr b ↦ (w, ground (arith, find-put k j v m), q)
  ]

pub beq_refl : {K : Type 0} ⦃key : Key K⦄ (k : K) → key.beq k k ≡ true
beq_refl ⦃key⦄ k = (key.beq_iff k k).1 refl
